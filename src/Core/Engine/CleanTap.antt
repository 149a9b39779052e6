-- ===== src/Core/Engine/CleanTap.antt =====
-- What a fired rule takes from the modifiers of its trigger.
use keymapper_rs.Core.Engine.Keys.{is_down_in}
use keymapper_rs.Core.Engine.Inv.{Inv, bit_of}
use keymapper_rs.Core.Engine.{decide, decide_down}
use keymapper_rs.Prelude.{subst}
use keymapper_rs.Prelude.{
  ℕ, ◌<◌, ◌≡◌, ◌≢◌, ◌↔◌, refl, ap, sym, ◌∙◌, ◌⊎◌, inl, inr, List, Bool, true, false, ◌||◌, ◌&&◌,
  not, Option, none, some, arith, Bool-cases, Option-cases, map_get, bit_and,
}
use keymapper_rs.Bits.{has, has-bit_or, has-bit_and, has_clear, has-zero}
use keymapper_rs.Common.Str.{Str}
use keymapper_rs.Common.HidUsage.{HidUsage}
use keymapper_rs.Core.Rules.{NativeKey}
use keymapper_rs.Core.Lookup.{Lookup}
use keymapper_rs.Core.Tracker.{KeyTracker, consume_triggered, consume_held}
use keymapper_rs.Core.Tracker.Held.{
  Distinct, left_of, map_get-consume_held, consume_held_hits, consume_held_only,
}
use keymapper_rs.Core.Engine.{
  MappingEngine, Decision, decide_fresh, fire, resolve, answer, mark_down,
}
use keymapper_rs.Core.Engine.Hold.{Grows, held_of, hold_outputs-Grows}

module _ {ℓ} {K : Type ℓ} (dec : Discrete K) where
  -- Some swallowed key holds the bit `i`.
  abbrev pub IsHeld : MappingEngine K → ℕ → Type ℓ
  IsHeld e i =
      (k : K) × (m : ℕ) × (map_get dec k e.tracker.held_output_modifiers ≡ some m)
      × (has m i ≡ true)

  pub record IsCleanTap (e : MappingEngine K) (key : K) (e' : MappingEngine K) (released : ℕ)
      : Type ℓ where
    -- Exactly the active modifiers that the output device has down are released.
    pub released_iff :
        (i : ℕ)
        → i < 8
        → (has released i ≡ true) ↔ (
            (has e.modifier_state i ≡ true)
            × ((has e.tracker.forwarded_modifiers i ≡ true) ⊎ IsHeld e i))
    -- The forwarded ones among them become consumed.
    pub forwarded_after :
        (i : ℕ)
        → i < 8
        → has e'.tracker.forwarded_modifiers i
          ≡ (has e.tracker.forwarded_modifiers i && not (has e.modifier_state i))
    pub consumed_after :
        (i : ℕ)
        → i < 8
        → has e'.tracker.consumed_modifiers i ≡ (
            has e.tracker.consumed_modifiers i
            || (has e.modifier_state i && has e.tracker.forwarded_modifiers i))
    -- The other keys hold what was not in the trigger, and no key is left with an empty mask.
    pub others_after :
        (k : K)
        → k ≢ key
        → held_of dec e'.tracker k ≡ left_of e.modifier_state (held_of dec e.tracker k)

  Grows-other :
      {key : K} {t u : KeyTracker K} (k : K)
      → Grows dec key t u
      → k ≢ key
      → held_of dec u k ≡ held_of dec t k
  Grows-other {t} {u} k g ne = elim (Option-cases (held_of dec t k)) [
    | inl absent ↦ elim (Option-cases (held_of dec u k)) [
      | inl still ↦ still ∙ sym absent
      | inr (m, entry) ↦ ground (arith, g.only k m entry, absent)
    ]
    | inr (m, entry) ↦
        let (m', entry', mono) = g.kept k m entry in
        ground (arith, g.only k m' entry', entry, entry')
  ]

  module _ (e : MappingEngine K) (key : K) (outputs : List NativeKey)
      (distinct : Distinct dec e.tracker.held_output_modifiers) where
    open e.tracker use {held_output_modifiers, forwarded_modifiers, consumed_modifiers}

    released : ℕ
    released = (consume_triggered e.tracker e.modifier_state).1.0

    released_only :
        (i : ℕ)
        → has released i ≡ true
        → (has e.modifier_state i ≡ true) × ((has forwarded_modifiers i ≡ true) ⊎ IsHeld e i)
    unfolding released consume_triggered
    released_only i h = elim (Bool-cases (has (bit_and e.modifier_state forwarded_modifiers) i)) [
      | inl both ↦ ground (arith, both, has-bit_and e.modifier_state forwarded_modifiers i)
      | inr other ↦
          elim (consume_held_only dec e.modifier_state held_output_modifiers 0 i distinct (
            ground (
              arith,
              h,
              other,
              has-bit_or (bit_and e.modifier_state forwarded_modifiers)
                  (consume_held e.modifier_state held_output_modifiers 0).1 i,
            ))) [
              | inl given ↦ cc (given, has-zero i)
              | inr (k, m, entry, bit, hit) ↦ (hit, inr (k, m, entry, bit))
            ]
    ]

    released_all :
        (i : ℕ)
        → (has e.modifier_state i ≡ true) × ((has forwarded_modifiers i ≡ true) ⊎ IsHeld e i)
        → has released i ≡ true
    unfolding released consume_triggered
    released_all i (active, inl forwarded) = ground (
      arith,
      active,
      forwarded,
      has-bit_and e.modifier_state forwarded_modifiers i,
      has-bit_or (bit_and e.modifier_state forwarded_modifiers)
          (consume_held e.modifier_state held_output_modifiers 0).1 i,
    )
    released_all i (active, inr (k, m, entry, bit)) = ground (
      arith,
      consume_held_hits dec e.modifier_state held_output_modifiers 0 i k m entry bit active,
      has-bit_or (bit_and e.modifier_state forwarded_modifiers)
          (consume_held e.modifier_state held_output_modifiers 0).1 i,
    )

    fire-IsCleanTap :
        (b : Option ℕ)
        → IsCleanTap e key
            (fire dec (mark_down dec e key b) key b e.modifier_state outputs).0
            released
    unfolding fire consume_triggered
    fire-IsCleanTap b = record {
      released_iff = λ i below. (released_only i, released_all i);
      forwarded_after = λ i below.
          ap (λ x. has x i) (hold_outputs-Grows dec _ key outputs 0).forwarded
          ∙ ground (
            arith,
            has_clear forwarded_modifiers (bit_and e.modifier_state forwarded_modifiers) i below,
            has-bit_and e.modifier_state forwarded_modifiers i,
          );
      consumed_after = λ i below.
          ap (λ x. has x i) (hold_outputs-Grows dec _ key outputs 0).consumed
          ∙ ground (
            arith,
            has-bit_or consumed_modifiers (bit_and e.modifier_state forwarded_modifiers) i,
            has-bit_and e.modifier_state forwarded_modifiers i,
          );
      others_after = λ k ne.
          Grows-other k (hold_outputs-Grows dec _ key outputs 0) ne
          ∙ map_get-consume_held dec e.modifier_state held_output_modifiers 0 k distinct;
    }

    fire_decision :
        (b : Option ℕ)
        → (fire dec (mark_down dec e key b) key b e.modifier_state outputs).1
          ≡ Decision.emit released outputs
    unfolding fire released consume_triggered
    fire_decision b = refl

  answer-IsCleanTap :
      (e : MappingEngine K) (key : K) (b : Option ℕ) (found : Option (List NativeKey)) (mask : ℕ)
      (outputs : List NativeKey)
      → Distinct dec e.tracker.held_output_modifiers
      → (answer dec (mark_down dec e key b) key b e.modifier_state found).1
        ≡ Decision.emit mask outputs
      → IsCleanTap e key (answer dec (mark_down dec e key b) key b e.modifier_state found).0 mask
  unfolding answer
  answer-IsCleanTap e key b none mask outputs distinct h = cc
  answer-IsCleanTap e key b (some os) mask outputs distinct h =
      subst (IsCleanTap e key (fire dec (mark_down dec e key b) key b e.modifier_state os).0)
        (cc (fire_decision e key os distinct b)) (fire-IsCleanTap e key os distinct b)

module _ {ℓ} {K : Type ℓ} (dec : Discrete K) (usage_of : K → HidUsage) where
  -- A key-down of a key that was up emits a clean tap: if the invariant holds, then whenever the
  -- decision is an emission, its
  -- release mask has exactly the bits of the active modifiers that are down on the output device,
  -- forwarded or held; the forwarded ones among them become consumed; and the other keys go on
  -- holding just the bits that were not active.
  pub decide-IsCleanTap :
      (lookup : Lookup) (e : MappingEngine K) (key : K) (device_id : Option Str) (reachable : Bool)
      (mask : ℕ) (outputs : List NativeKey)
      → Inv dec usage_of e
      → is_down_in dec e key ≡ false
      → (decide dec lookup e key (usage_of key) true device_id reachable).1
        ≡ Decision.emit mask outputs
      → IsCleanTap dec e key
          (decide dec lookup e key (usage_of key) true device_id reachable).0
          mask
  unfolding decide decide_down
  decide-IsCleanTap lookup e key device_id reachable mask outputs inv fresh =
      rw (fresh, decide_down)
        (decide_fresh-IsCleanTap lookup e key device_id reachable mask outputs inv)
    where
      decide_fresh-IsCleanTap :
          (lookup : Lookup) (e : MappingEngine K) (key : K) (device_id : Option Str)
          (reachable : Bool) (mask : ℕ) (outputs : List NativeKey)
          → Inv dec usage_of e
          → (decide_fresh dec lookup e key (usage_of key) device_id reachable).1
            ≡ Decision.emit mask outputs
          → IsCleanTap dec e key
              (decide_fresh dec lookup e key (usage_of key) device_id reachable).0
              mask
      decide_fresh-IsCleanTap lookup e key device_id false mask outputs inv h = cc
      decide_fresh-IsCleanTap lookup e key device_id true mask outputs inv h =
          answer-IsCleanTap dec e key (bit_of dec usage_of key)
            (resolve lookup (usage_of key) e.modifier_state device_id) mask outputs inv.distinct h
