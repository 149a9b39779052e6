-- ===== src/Core/Engine/Fire.antt =====
-- src/keymap_core/engine.rs, the mapped branch of `decide_down`, and the invariant.
use keymapper_rs.Core.Engine.Witness.{has-set_bit_of, PressedBit-insert}
use keymapper_rs.Core.Engine.{set_bit_of}
use keymapper_rs.Prelude.{
  ℕ, ◌<◌, ◌≡◌, ap, sym, subst, subst₂, ◌∙◌, ◌⊎◌, inl, inr, List, true, false, arith, same_self,
  contains, insert, contains-insert, ◌==◌, Bool-cases, Option-cases, bit_and, bit_or, if◌then◌else◌,
  map_get,
}
use keymapper_rs.Bits.{has, has-bit_or, has-bit_and, has_clear, bit_not, has-zero, has-eq_zero}
use keymapper_rs.Common.HidUsage.{HidUsage}
use keymapper_rs.Core.Rules.{NativeKey}
use keymapper_rs.Core.Tracker.{KeyTracker, consume_triggered, consume_held}
use keymapper_rs.Core.Tracker.Held.{
  unhit, has-unhit, left_of, map_get-consume_held, consume_held-Distinct, consume_held_hits,
}
use keymapper_rs.Core.Engine.{MappingEngine, clear_bit_of, fire, hold_outputs}
use keymapper_rs.Core.Engine.Inv.{Inv, bit_of, PressedBit, ForwardedBit, HeldBit}
use keymapper_rs.Core.Engine.Witness.{has-clear_bit_of, ForwardedBit-swallow}
use keymapper_rs.Core.Engine.Hold.{Grows, hold_outputs-Grows, hold_outputs_mask}

-- The state once the bits of the held outputs are set.
abbrev with_held : ℕ → ℕ → ℕ
with_held state held = if held == 0 then state else bit_or state held

has-with_held :
    (state held i : ℕ)
    → has (with_held state held) i ≡ true
    → (has state i ≡ true) ⊎ (has held i ≡ true)
has-with_held state held i h = ground (arith, has-bit_or state held i)

module _ {ℓ} {K : Type ℓ} (dec : Discrete K) (usage_of : K → HidUsage) where
  abbrev engine : ℕ → KeyTracker K → MappingEngine K
  engine state t = record { modifier_state = state; tracker = t }

  -- A tracker that grows for a swallowed key, with a state whose new bits are held.
  Grows-Inv :
      (key : K) (t u : KeyTracker K) (state state' : ℕ)
      → Grows dec key t u
      → contains dec key t.swallowed_keys ≡ true
      → ((i : ℕ)
          → i < 8
          → has state' i ≡ true
          → (has state i ≡ true) ⊎ HeldBit dec usage_of u.held_output_modifiers i)
      → Inv dec usage_of (engine state t)
      → Inv dec usage_of (engine state' u)
  Grows-Inv key t u state state' g sw new inv = record {
    state_bits = λ i below h. elim (new i below h) [
      | inl old ↦ elim (inv.state_bits i below old) [
        | inl p ↦ inl (subst (λ x. PressedBit dec usage_of x i) (sym g.pressed) p)
        | inr (k, m, entry, bit) ↦
            let (m', entry', mono) = g.kept k m entry in inr (k, m', entry', mono i bit)
      ]
      | inr held ↦ inr held
    ];
    forwarded_bits = λ i below h.
        subst₂ (λ x y. ForwardedBit dec usage_of x y i) (sym g.pressed) (sym g.swallowed)
          (inv.forwarded_bits i below (rw g.forwarded at h));
    consumed_bits = λ i below h.
        subst₂ (λ x y. ForwardedBit dec usage_of x y i) (sym g.pressed) (sym g.swallowed)
          (inv.consumed_bits i below (rw g.consumed at h));
    apart = λ i below h. rw g.consumed (inv.apart i below (rw g.forwarded at h));
    swallowed_pressed = λ k h. rw g.pressed (inv.swallowed_pressed k (rw g.swallowed at h));
    held_swallowed = λ k m h.
        rw g.swallowed
          (elim (g.only k m h) [ inl own ↦ rw own sw | inr old ↦ inv.held_swallowed k m old ]);
    distinct = g.distinct inv.distinct;
  }

module _ {ℓ} {K : Type ℓ} (dec : Discrete K) (usage_of : K → HidUsage) (e : MappingEngine K)
    (key : K) (inv : Inv dec usage_of e)
    (up : contains dec key e.tracker.pressed_keys ≡ false) where
  open e.tracker use {
    pressed_keys, swallowed_keys, held_output_modifiers, forwarded_modifiers, consumed_modifiers,
    stale_keys,
  }
  open inv use {
    state_bits, forwarded_bits, consumed_bits, apart, swallowed_pressed, held_swallowed, distinct,
  }

  modifiers : ℕ
  modifiers = e.modifier_state

  -- What the held outputs lose to the trigger.
  struck : ℕ
  unfolding modifiers
  struck = (consume_held modifiers held_output_modifiers 0).1

  marked : KeyTracker K
  marked = record (e.tracker) {
    pressed_keys = insert dec key pressed_keys;
    swallowed_keys = insert dec key swallowed_keys;
  }

  after : KeyTracker K
  unfolding marked modifiers consume_triggered
  after = (consume_triggered marked modifiers).0

  lowered : ℕ
  unfolding struck
  lowered =
      clear_bit_of (bit_of dec usage_of key)
        (bit_and (set_bit_of (bit_of dec usage_of key) e.modifier_state) (bit_not struck))

  after_entry :
      (k : K)
      → map_get dec k after.held_output_modifiers
        ≡ left_of modifiers (map_get dec k held_output_modifiers)
  unfolding after
  after_entry k = map_get-consume_held dec modifiers held_output_modifiers 0 k distinct

  -- A held bit that was not struck is still held.
  HeldBit-after :
      (i : ℕ)
      → i < 8
      → has struck i ≡ false
      → HeldBit dec usage_of held_output_modifiers i
      → HeldBit dec usage_of after.held_output_modifiers i
  unfolding struck
  HeldBit-after i below clear (k, m, entry, bit) =
      let spared : has modifiers i ≡ false = ground (
        arith,
        clear,
        entry,
        bit,
        consume_held_hits dec modifiers held_output_modifiers 0 i k m entry bit,
      ) in
      let left : has (unhit modifiers m) i ≡ true = ground (arith, has-unhit modifiers m i below) in
      (
        k,
        unhit modifiers m,
        after_entry k
            ∙ ap (left_of modifiers) entry
            ∙ ground (arith, has-eq_zero (unhit modifiers m) i left),
        left,
      )

  after_state :
      (i : ℕ)
      → i < 8
      → has lowered i ≡ true
      → (has e.modifier_state i ≡ true) × (has struck i ≡ false)
  unfolding lowered
  after_state i below h =
      let raised : ℕ = set_bit_of (bit_of dec usage_of key) e.modifier_state in
      let (set, ne) =
        has-clear_bit_of (bit_of dec usage_of key) (bit_and raised (bit_not struck)) i below h in
      let kept : (has raised i ≡ true) × (has struck i ≡ false) =
        ground (arith, set, has_clear raised struck i below) in
      elim (has-set_bit_of (bit_of dec usage_of key) e.modifier_state i kept.0) [
        | inl old ↦ (old, kept.1)
        | inr own ↦ absurd (ne own)
      ]

  after-Inv : Inv dec usage_of (engine dec usage_of lowered after)
  unfolding after
  after-Inv = record {
    state_bits = λ i below h.
        let (set, clear) = after_state i below h in
        elim (state_bits i below set) [
          | inl p ↦ inl (PressedBit-insert dec usage_of key pressed_keys i p)
          | inr p ↦ inr (HeldBit-after i below clear p)
        ];
    forwarded_bits = λ i below h.
        ForwardedBit-swallow dec usage_of key pressed_keys swallowed_keys i up (
          forwarded_bits i below (
            ground (
              arith,
              h,
              has_clear forwarded_modifiers (bit_and modifiers forwarded_modifiers) i below,
            )));
    consumed_bits = λ i below h.
        ForwardedBit-swallow dec usage_of key pressed_keys swallowed_keys i up
          (elim (Bool-cases (has consumed_modifiers i)) [
            | inl old ↦ consumed_bits i below old
            | inr new ↦ forwarded_bits i below (
                ground (
                  arith,
                  h,
                  has-bit_or consumed_modifiers (bit_and modifiers forwarded_modifiers) i,
                  has-bit_and modifiers forwarded_modifiers i,
                ))
          ]);
    apart = λ i below h. ground (
      arith,
      h,
      apart i below,
      has_clear forwarded_modifiers (bit_and modifiers forwarded_modifiers) i below,
      has-bit_or consumed_modifiers (bit_and modifiers forwarded_modifiers) i,
      has-bit_and modifiers forwarded_modifiers i,
    );
    swallowed_pressed = λ k h. ground (
      arith,
      h,
      contains-insert dec k key swallowed_keys,
      contains-insert dec k key pressed_keys,
      swallowed_pressed k,
    );
    held_swallowed = λ k m h. elim (Option-cases (map_get dec k held_output_modifiers)) [
      | inl none_held ↦ cc (h, after_entry k, ap (left_of modifiers) none_held)
      | inr (m', entry) ↦
          ground (arith, held_swallowed k m' entry, contains-insert dec k key swallowed_keys)
    ];
    distinct = consume_held-Distinct dec modifiers held_output_modifiers 0 distinct;
  }

  marked_swallowed : contains dec key after.swallowed_keys ≡ true
  unfolding after
  marked_swallowed = ground (arith, contains-insert dec key key swallowed_keys, same_self dec key)

  held_state :
      (outputs : List NativeKey) (i : ℕ)
      → i < 8
      → has (with_held lowered (hold_outputs dec after key outputs 0).1) i ≡ true
      → (has lowered i ≡ true)
        ⊎ HeldBit dec usage_of (hold_outputs dec after key outputs 0).0.held_output_modifiers i
  held_state outputs i below h =
      elim (has-with_held lowered (hold_outputs dec after key outputs 0).1 i h) [
        | inl old ↦ inl old
        | inr set ↦ elim (hold_outputs_mask dec after key outputs 0 i set) [
          | inl given ↦ cc (given, has-zero i)
          | inr (m, entry, bit) ↦ inr (key, m, entry, bit)
        ]
      ]

  -- Firing a rule keeps the invariant.
  pub fire-Inv :
      (outputs : List NativeKey)
      → Inv dec usage_of
          (fire dec
            (record {
              modifier_state = set_bit_of (bit_of dec usage_of key) e.modifier_state;
              tracker = record (e.tracker) { pressed_keys = insert dec key pressed_keys };
            })
            key
            (bit_of dec usage_of key)
            e.modifier_state
            outputs).0
  unfolding fire after lowered
  fire-Inv outputs =
      Grows-Inv dec usage_of key after (hold_outputs dec after key outputs 0).0 lowered
        (with_held lowered (hold_outputs dec after key outputs 0).1)
        (hold_outputs-Grows dec after key outputs 0) marked_swallowed (held_state outputs) after-Inv
