-- ===== src/Core/Emission/Held.antt =====
-- src/keymap_core/emission.rs with src/keymap_core/engine.rs: what the plan of a key-down holds down on
-- the output device, and what the plan of the key-up lets go.
use mathlib.Core.Option
use keymapper_rs.Prelude.{
  ℕ, ◌≡◌, ap, sym, ◌∙◌, inl, inr, List, [], ◌∷◌, Bool, true, false, ◌||◌, Option, none, some, arith,
  same, same_self, insert, ◌&&◌, Bool-cases, Option-cases, ◌==◌, map_get, map_get-map_upsert,
  bit_or,
}
use keymapper_rs.Bits.{has, has-bit_or, has-zero, has-eq_zero}
use keymapper_rs.Common.Str.{Str}
use keymapper_rs.Common.HidUsage.{HidUsage, hid_usage_to_modifier_bit}
use keymapper_rs.Core.Rules.{NativeKey}
use keymapper_rs.Core.Lookup.{Lookup}
use keymapper_rs.Core.Tracker.{KeyTracker, hold_output_modifiers, consume_triggered}
use keymapper_rs.Core.Tracker.Held.{Distinct, map_get-consume_held}
use keymapper_rs.Core.Tracker.Release.{release_swallowed}
use keymapper_rs.Core.Engine.{
  MappingEngine, Decision, output_held_mask, hold_outputs, fire, answer, mark_down, resolve,
  decide_fresh, decide_down, decide_up, decide, settle, clear_bit_of,
}
use keymapper_rs.Core.Engine.Hold.{hold_outputs-none, hold_outputs-some}
use keymapper_rs.Core.Engine.Inv.{Inv}
use keymapper_rs.Core.Engine.Keys.{is_emit, is_down_in, is_swallowed_in, decide_fresh_keys}
use keymapper_rs.Core.Emission.{
  EmitAction, InputFate, ConsumedReleaseFate, push_release, output_action, output_actions,
  emission_plan,
}

-- The modifier bits that an output has down while it is held.
abbrev pub bits_of : NativeKey → ℕ
bits_of output = Option.get_or (output_held_mask output) 0

-- Whether one of the actions holds the modifier bit `i` down.
abbrev pub holds_bit : ℕ → List EmitAction → Bool
holds_bit i [] = false
holds_bit i (EmitAction.hold output ∷ actions) = has (bits_of output) i || holds_bit i actions
holds_bit i (EmitAction.tap output ∷ actions) = holds_bit i actions
holds_bit i (EmitAction.release_consumed mask ∷ actions) = holds_bit i actions

holds_bit-push_release :
    (i released : ℕ) (actions : List EmitAction)
    → holds_bit i (push_release released actions) ≡ holds_bit i actions
unfolding push_release
holds_bit-push_release i released actions = ground arith

holds_bit-output_actions :
    (i : ℕ) (output : NativeKey) (outputs : List NativeKey)
    → holds_bit i (output_actions (output ∷ outputs))
      ≡ (has (bits_of output) i || holds_bit i (output_actions outputs))
unfolding output_actions output_action
holds_bit-output_actions i output outputs = elim (Option-cases (output_held_mask output)) [
  | inl e ↦ rw (e, output_actions, output_action) (ground (arith, has-zero i))
  | inr (mask, e) ↦
      rw (e, output_actions, output_action) (ground (arith, ap (λ o. has (Option.get_or o 0) i) e))
]

module _ {ℓ} {K : Type ℓ} (dec : Discrete K) where
  -- Whether the bit `i` is in the mask that is held for the key.
  abbrev held_bit : KeyTracker K → K → ℕ → Bool
  held_bit t key i = has (Option.get_or (map_get dec key t.held_output_modifiers) 0) i

  held_bit-hold_output_modifiers :
      (t : KeyTracker K) (key : K) (mask i : ℕ)
      → held_bit (hold_output_modifiers dec t key mask) key i ≡ (held_bit t key i || has mask i)
  unfolding hold_output_modifiers
  held_bit-hold_output_modifiers t key mask i = elim (Bool-cases (mask == 0)) [
    | inl zero ↦ rw (zero, hold_output_modifiers) (ground (arith, has-eq_zero mask i, zero))
    | inr pos ↦
        rw (pos, hold_output_modifiers)
          (elim (Option-cases (map_get dec key t.held_output_modifiers)) [
            | inl e ↦ ground (
              arith,
              e,
              same_self dec key,
              has-zero i,
              map_get-map_upsert dec key key (λ m. bit_or m mask) mask t.held_output_modifiers,
            )
            | inr (m, e) ↦ ground (
              arith,
              e,
              same_self dec key,
              has-bit_or m mask i,
              map_get-map_upsert dec key key (λ m. bit_or m mask) mask t.held_output_modifiers,
            )
          ])
  ]

  held_bit-hold_outputs :
      (t : KeyTracker K) (key : K) (outputs : List NativeKey) (given i : ℕ)
      → held_bit (hold_outputs dec t key outputs given).0 key i
        ≡ (held_bit t key i || holds_bit i (output_actions outputs))
  unfolding hold_outputs output_actions
  held_bit-hold_outputs t key [] given i = ground arith
  held_bit-hold_outputs t key (output ∷ outputs) given i =
      elim (Option-cases (output_held_mask output)) [
        | inl e ↦ rw (hold_outputs-none dec t key output outputs given e) (
            ground (
              arith,
              held_bit-hold_outputs t key outputs given i,
              holds_bit-output_actions i output outputs,
              ap (λ o. has (Option.get_or o 0) i) e,
              has-zero i,
            ))
        | inr (mask, e) ↦ rw (hold_outputs-some dec t key output outputs given mask e) (
            ground (
              arith,
              held_bit-hold_outputs (hold_output_modifiers dec t key mask) key outputs
                  (bit_or given mask) i,
              held_bit-hold_output_modifiers t key mask i,
              holds_bit-output_actions i output outputs,
              ap (λ o. has (Option.get_or o 0) i) e,
            ))
      ]

  -- The bits that are held for a key after its key-down are those that the plan holds down.
  PlanHeld : K → ConsumedReleaseFate → MappingEngine K × Decision → Type 0
  PlanHeld key fate r =
      is_emit r.1 ≡ true
      → (i : ℕ) → held_bit r.0.tracker key i ≡ holds_bit i (emission_plan r.1 fate).actions

  answer-PlanHeld :
      (e : MappingEngine K) (key : K) (b : Option ℕ) (modifiers : ℕ)
      (found : Option (List NativeKey)) (fate : ConsumedReleaseFate)
      → Distinct dec e.tracker.held_output_modifiers
      → map_get dec key e.tracker.held_output_modifiers ≡ none
      → PlanHeld key fate (answer dec e key b modifiers found)
  unfolding PlanHeld answer fire consume_triggered emission_plan
  answer-PlanHeld e key b modifiers none fate distinct absent = λ h i. cc
  answer-PlanHeld e key b modifiers (some outputs) fate distinct absent = λ h i.
      held_bit-hold_outputs t key outputs 0 i
      ∙ ground (
        arith,
        map_get-consume_held dec modifiers e.tracker.held_output_modifiers 0 key distinct,
        absent,
        has-zero i,
      )
      ∙ sym (holds_bit-push_release i after.1.0 (output_actions outputs))
    where
      after : KeyTracker K × (ℕ × ℕ)
      after =
          consume_triggered
            (record (e.tracker) { swallowed_keys = insert dec key e.tracker.swallowed_keys })
            modifiers

      t : KeyTracker K
      t = after.0

  decide_fresh-PlanHeld :
      (usage_of : K → HidUsage) (lookup : Lookup) (e : MappingEngine K) (key : K)
      (device_id : Option Str) (reachable : Bool) (fate : ConsumedReleaseFate)
      → Inv dec usage_of e
      → is_down_in dec e key ≡ false
      → PlanHeld key fate (decide_fresh dec lookup e key (usage_of key) device_id reachable)
  unfolding PlanHeld decide_fresh
  decide_fresh-PlanHeld usage_of lookup e key device_id false fate inv up = λ h i. cc
  decide_fresh-PlanHeld usage_of lookup e key device_id true fate inv up =
      answer-PlanHeld (mark_down dec e key bit) key bit e.modifier_state
        (resolve lookup (usage_of key) e.modifier_state device_id) fate inv.distinct absent
    where
      bit : Option ℕ
      bit = hid_usage_to_modifier_bit (usage_of key)

      absent : map_get dec key e.tracker.held_output_modifiers ≡ none
      absent = elim (Option-cases (map_get dec key e.tracker.held_output_modifiers)) [
        | inl empty ↦ empty
        | inr (m, entry) ↦ cc (inv.swallowed_pressed key (inv.held_swallowed key m entry), up)
      ]

  -- The plan of a swallowed key's release: it lets go what is held for the key.
  decide_up_plan :
      (e : MappingEngine K) (key : K) (usage : HidUsage) (fate : ConsumedReleaseFate)
      → is_down_in dec e key ≡ true
      → is_swallowed_in dec e key ≡ true
      → emission_plan (decide_up dec e key usage).1 fate ≡ record {
        input = InputFate.swallow;
        actions =
            push_release (Option.get_or (map_get dec key e.tracker.held_output_modifiers) 0) [];
      }
  unfolding decide_up settle emission_plan
  decide_up_plan e key usage fate down sw =
      rw (down, decide_up)
        (ap
          (λ r.
            emission_plan
              (settle (clear_bit_of (hid_usage_to_modifier_bit usage) e.modifier_state) r).1 fate)
          (release_swallowed dec _ key usage sw))

  -- What a mapped key holds, it lets go: if the invariant holds, a key that was up goes down and is
  -- mapped, and then it
  -- goes up, the input of its key-up is swallowed, and the only action of that plan, if any, is
  -- the release of a mask, whose bits are exactly those that the outputs in the plan of the
  -- key-down hold down.
  pub press-release_plan :
      (usage_of : K → HidUsage) (lookup : Lookup) (e : MappingEngine K) (key : K)
      (device_id : Option Str) (reachable : Bool) (fate : ConsumedReleaseFate)
      → Inv dec usage_of e
      → is_down_in dec e key ≡ false
      → let pressed = decide dec lookup e key (usage_of key) true device_id reachable in
        let released = decide dec lookup pressed.0 key (usage_of key) false device_id reachable in
        is_emit pressed.1 ≡ true
        → (m : ℕ) × (emission_plan released.1 fate
            ≡ record { input = InputFate.swallow; actions = push_release m [] })
          × ((i : ℕ) → has m i ≡ holds_bit i (emission_plan pressed.1 fate).actions)
  unfolding decide decide_down PlanHeld
  press-release_plan usage_of lookup e key device_id reachable fate inv up =
      rw (up, decide_down)
        (λ emitted. (
          Option.get_or (map_get dec key fresh.0.tracker.held_output_modifiers) 0,
          decide_up_plan fresh.0 key (usage_of key) fate (ground (arith, keys.0, same_self dec key))
              (ground (arith, keys.1, same_self dec key, emitted)),
          decide_fresh-PlanHeld usage_of lookup e key device_id reachable fate inv up emitted,
        ))
    where
      fresh : MappingEngine K × Decision
      fresh = decide_fresh dec lookup e key (usage_of key) device_id reachable

      keys :
          (is_down_in dec fresh.0 key ≡ (same dec key key || is_down_in dec e key))
          × (is_swallowed_in dec fresh.0 key
              ≡ ((is_emit fresh.1 && same dec key key) || is_swallowed_in dec e key))
      keys = decide_fresh_keys dec lookup e key (usage_of key) device_id reachable key
