-- ===== src/Core/Engine/Up.antt =====
-- src/keymap_core/engine.rs, `decide_up`, and the invariant.
use keymapper_rs.Core.Engine.{clear_bit_of}
use keymapper_rs.Bits.{bit_and_pow}
use keymapper_rs.Prelude.{refl}
use keymapper_rs.Core.Tracker.Release.{
  release_swallowed, release_through, release_consumed, release_unconsumed,
}
use keymapper_rs.Bits.{has-zero, has_clear}
use keymapper_rs.Prelude.{subst, sym}
use keymapper_rs.Prelude.{Option, none, some, Bool-cases, bit_and, ◌==◌, ◌^◌}
use keymapper_rs.Core.Engine.{settle, decide_up}
use keymapper_rs.Core.Tracker.{KeyTracker, release, release_forwarded}
use keymapper_rs.Prelude.{
  ℕ, ◌<◌, ◌≡◌, ◌≢◌, ap, inl, inr, List, true, false, some, arith, contains, remove, contains-remove,
  Bool-cases, map_get, map_remove, map_get-map_remove,
}
use mathlib.Core.Option
use keymapper_rs.Bits.{has}
use keymapper_rs.Common.HidUsage.{HidUsage}
use keymapper_rs.Core.Tracker.Held.{map_remove-Distinct}
use keymapper_rs.Core.Engine.{MappingEngine, clear_bit_of}
use keymapper_rs.Core.Engine.Inv.{Inv, bit_of, HeldBit}
use keymapper_rs.Core.Engine.Witness.{
  has-clear_bit_of, PressedBit-remove, ForwardedBit-remove, ForwardedBit-remove_swallowed,
}

-- The mask that a swallowed key-up releases.
abbrev pub released_mask {ℓ} : {K : Type ℓ} → Discrete K → K → List (K × ℕ) → ℕ
released_mask dec key held = Option.get_or (map_get dec key held) 0

module _ {ℓ} {K : Type ℓ} (dec : Discrete K) (usage_of : K → HidUsage) (e : MappingEngine K)
    (key : K) (inv : Inv dec usage_of e) where
  open e.tracker use {
    pressed_keys, swallowed_keys, held_output_modifiers, forwarded_modifiers, consumed_modifiers,
    stale_keys,
  }

  -- The engine without the key, with the given state, swallowed keys, held outputs and masks.
  abbrev without : ℕ → List K → List (K × ℕ) → ℕ → ℕ → MappingEngine K
  without state swallowed held forwarded consumed = record {
    modifier_state = state;
    tracker = record {
      pressed_keys = remove dec key pressed_keys;
      swallowed_keys = swallowed;
      held_output_modifiers = held;
      forwarded_modifiers = forwarded;
      consumed_modifiers = consumed;
      stale_keys = remove dec key stale_keys;
    };
  }

  lowered : ℕ
  lowered = clear_bit_of (bit_of dec usage_of key) e.modifier_state

  -- A held bit of another key is still held.
  HeldBit-map_remove :
      (i : ℕ)
      → has (released_mask dec key held_output_modifiers) i ≡ false
      → HeldBit dec usage_of held_output_modifiers i
      → HeldBit dec usage_of (map_remove dec key held_output_modifiers) i
  HeldBit-map_remove i clear (k, m, entry, bit) = (
    k,
    m,
    ground (
      arith,
      map_get-map_remove dec k key held_output_modifiers,
      ap (λ (x : K). map_get dec x held_output_modifiers) {x = k} {y = key},
    ),
    bit,
  )

  swallowed-Inv :
      (state : ℕ)
      → contains dec key swallowed_keys ≡ true
      → ((i : ℕ)
          → i < 8
          → has state i ≡ true
          → (has lowered i ≡ true) × (has (released_mask dec key held_output_modifiers) i ≡ false))
      → Inv dec usage_of (
          without state
            (remove dec key swallowed_keys)
            (map_remove dec key held_output_modifiers)
            forwarded_modifiers
            consumed_modifiers)
  unfolding lowered
  swallowed-Inv state sw kept = record {
    state_bits = λ i below h.
        let (set, ne) =
          has-clear_bit_of (bit_of dec usage_of key) e.modifier_state i below (kept i below h).0 in
        elim (inv.state_bits i below set) [
          | inl p ↦ inl (PressedBit-remove dec usage_of key pressed_keys i ne p)
          | inr p ↦ inr (HeldBit-map_remove i (kept i below h).1 p)
        ];
    forwarded_bits = λ i below h.
        ForwardedBit-remove_swallowed dec usage_of key pressed_keys swallowed_keys i sw
          (inv.forwarded_bits i below h);
    consumed_bits = λ i below h.
        ForwardedBit-remove_swallowed dec usage_of key pressed_keys swallowed_keys i sw
          (inv.consumed_bits i below h);
    apart = inv.apart;
    swallowed_pressed = λ k h. ground (
      arith,
      contains-remove dec k key swallowed_keys,
      contains-remove dec k key pressed_keys,
      inv.swallowed_pressed k,
    );
    held_swallowed = λ k m h. ground (
      arith,
      contains-remove dec k key swallowed_keys,
      map_get-map_remove dec k key held_output_modifiers,
      inv.held_swallowed k m,
    );
    distinct = map_remove-Distinct dec key held_output_modifiers inv.distinct;
  }

  -- A key that was not swallowed, with masks that lost its bit where they need to.
  through-Inv :
      (forwarded consumed : ℕ)
      → contains dec key swallowed_keys ≡ false
      → ((i : ℕ)
          → i < 8
          → has forwarded i ≡ true
          → (has forwarded_modifiers i ≡ true) × (bit_of dec usage_of key ≢ some i))
      → ((i : ℕ)
          → i < 8
          → has consumed i ≡ true
          → (has consumed_modifiers i ≡ true) × (bit_of dec usage_of key ≢ some i))
      → Inv dec usage_of (without lowered swallowed_keys held_output_modifiers forwarded consumed)
  unfolding lowered
  through-Inv forwarded consumed sw keep_f keep_c = record {
    state_bits = λ i below h.
        let (set, ne) = has-clear_bit_of (bit_of dec usage_of key) e.modifier_state i below h in
        elim (inv.state_bits i below set) [
          | inl p ↦ inl (PressedBit-remove dec usage_of key pressed_keys i ne p)
          | inr p ↦ inr p
        ];
    forwarded_bits = λ i below h.
        ForwardedBit-remove dec usage_of key pressed_keys swallowed_keys i (keep_f i below h).1
          (inv.forwarded_bits i below (keep_f i below h).0);
    consumed_bits = λ i below h.
        ForwardedBit-remove dec usage_of key pressed_keys swallowed_keys i (keep_c i below h).1
          (inv.consumed_bits i below (keep_c i below h).0);
    apart = λ i below h. elim (Bool-cases (has consumed i)) [
      | inl set ↦ cc (inv.apart i below (keep_f i below h).0, (keep_c i below set).0)
      | inr clear ↦ clear
    ];
    swallowed_pressed = λ k h. ground (
      arith,
      contains-remove dec k key pressed_keys,
      inv.swallowed_pressed k h,
      ap (λ (x : K). contains dec x swallowed_keys) {x = k} {y = key},
    );
    held_swallowed = inv.held_swallowed;
    distinct = inv.distinct;
  }

  lifted : KeyTracker K
  lifted = record (e.tracker) {
    pressed_keys = remove dec key pressed_keys;
    stale_keys = remove dec key stale_keys;
  }

  -- The key-up of a swallowed key.
  settle_swallowed-Inv :
      contains dec key swallowed_keys ≡ true
      → Inv dec usage_of (settle lowered (release dec lifted key (usage_of key))).0
  unfolding settle
  settle_swallowed-Inv sw =
      subst (λ r. Inv dec usage_of (settle lowered r).0)
        (sym (release_swallowed dec lifted key (usage_of key) (unfold lifted in sw)))
        (unfold lifted in
          swallowed-Inv _ sw (λ i below h. ground (
            arith,
            has_clear lowered (released_mask dec key held_output_modifiers) i below,
            ap (λ (x : ℕ). has x i) {x = released_mask dec key held_output_modifiers} {y = 0},
            has-zero i,
          )))

  -- The key-up of a key that was passed through, by its modifier bit.
  settle_through-Inv :
      (b : Option ℕ)
      → bit_of dec usage_of key ≡ b
      → contains dec key swallowed_keys ≡ false
      → Inv dec usage_of (settle lowered (release_forwarded lifted b)).0
  unfolding settle release_forwarded lifted clear_bit_of
  settle_through-Inv none eq sw =
      through-Inv forwarded_modifiers consumed_modifiers sw (λ i below h. (h, λ p. cc))
        (λ i below h. (h, λ p. cc))
  settle_through-Inv (some bit) eq sw =
      elim (Bool-cases (bit_and consumed_modifiers (2 ^ bit) == 0)) [
        | inl free ↦
            subst (λ r. Inv dec usage_of (settle lowered r).0)
              (sym (release_unconsumed lifted bit free))
              (through-Inv _ _ sw
                (λ i below h.
                  ground (arith, eq, has-clear_bit_of (some bit) forwarded_modifiers i below h))
                (λ i below h. ground (
                  arith,
                  eq,
                  h,
                  bit_and_pow consumed_modifiers bit,
                  ap (λ (x : ℕ). has consumed_modifiers x) {x = bit} {y = i},
                )))
        | inr used ↦
            subst (λ r. Inv dec usage_of (settle lowered r).0)
              (sym (release_consumed lifted bit used))
              (through-Inv _ _ sw
                (λ i below h. ground (
                  arith,
                  eq,
                  h,
                  bit_and_pow consumed_modifiers bit,
                  inv.apart i below h,
                  ap (λ (x : ℕ). has consumed_modifiers x) {x = bit} {y = i},
                ))
                (λ i below h.
                  ground (arith, eq, has-clear_bit_of (some bit) consumed_modifiers i below h)))
      ]

  -- Any key-up keeps the invariant.
  pub decide_up-Inv : Inv dec usage_of (decide_up dec e key (usage_of key)).0
  unfolding decide_up lifted lowered
  decide_up-Inv = elim (Bool-cases (contains dec key pressed_keys)) [
    | inl down ↦
        rw (down, decide_up)
          (elim (Bool-cases (contains dec key swallowed_keys)) [
            | inl sw ↦ settle_swallowed-Inv sw
            | inr sw ↦
                subst (λ r. Inv dec usage_of (settle lowered r).0)
                  (sym (release_through dec lifted key (usage_of key) sw))
                  (settle_through-Inv (bit_of dec usage_of key) refl sw)
          ])
    | inr up ↦ rw (up, decide_up) inv
  ]
