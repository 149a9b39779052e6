-- ===== src/Core/Engine/Down.antt =====
-- src/keymap_core/engine.rs, `decide_down` and `decide`, and the invariant.
use keymapper_rs.Core.Engine.Up.{decide_up-Inv}
use keymapper_rs.Core.Engine.{resolve, answer, decide}
use keymapper_rs.Prelude.{
  ℕ, ◌^◌, ◌≡◌, refl, inl, inr, List, Bool, true, false, Option, none, some, arith, same_self,
  contains, insert, contains-insert, ◌==◌, Bool-cases,
}
use keymapper_rs.Bits.{has-bit_or, has_clear, has-pow}
use keymapper_rs.Common.Str.{Str}
use keymapper_rs.Common.HidUsage.{HidUsage}
use keymapper_rs.Core.Rules.{NativeKey}
use keymapper_rs.Core.Lookup.{Lookup}
use keymapper_rs.Core.Tracker.{record_forwarded_down}
use keymapper_rs.Core.Engine.{MappingEngine, set_bit_of, forward_down, decide_fresh, decide_down}
use keymapper_rs.Core.Engine.Inv.{Inv, bit_of}
use keymapper_rs.Core.Engine.Witness.{has-set_bit_of, PressedBit-insert, ForwardedBit-insert}
use keymapper_rs.Core.Engine.Fire.{fire-Inv}

module _ {ℓ} {K : Type ℓ} (dec : Discrete K) (usage_of : K → HidUsage) (e : MappingEngine K)
    (key : K) (inv : Inv dec usage_of e)
    (up : contains dec key e.tracker.pressed_keys ≡ false) where
  open e.tracker use {
    pressed_keys, swallowed_keys, held_output_modifiers, forwarded_modifiers, consumed_modifiers,
    stale_keys,
  }

  unswallowed : contains dec key swallowed_keys ≡ false
  unswallowed = ground (arith, inv.swallowed_pressed key)

  key_pressed : contains dec key (insert dec key pressed_keys) ≡ true
  key_pressed = ground (arith, contains-insert dec key key pressed_keys, same_self dec key)

  -- The engine once the key is marked as down.
  unfoldable pub raised : MappingEngine K
  raised = record {
    modifier_state = set_bit_of (bit_of dec usage_of key) e.modifier_state;
    tracker = record (e.tracker) { pressed_keys = insert dec key pressed_keys };
  }

  pub raised-Inv : Inv dec usage_of raised
  unfolding raised
  raised-Inv = record {
    state_bits = λ i below h. elim (has-set_bit_of (bit_of dec usage_of key) e.modifier_state i h) [
      | inl set ↦ elim (inv.state_bits i below set) [
        | inl p ↦ inl (PressedBit-insert dec usage_of key pressed_keys i p)
        | inr p ↦ inr p
      ]
      | inr own ↦ inl (key, key_pressed, own)
    ];
    forwarded_bits = λ i below h.
        ForwardedBit-insert dec usage_of key pressed_keys swallowed_keys i
          (inv.forwarded_bits i below h);
    consumed_bits = λ i below h.
        ForwardedBit-insert dec usage_of key pressed_keys swallowed_keys i
          (inv.consumed_bits i below h);
    apart = inv.apart;
    swallowed_pressed =
        λ k h. ground (arith, contains-insert dec k key pressed_keys, inv.swallowed_pressed k h);
    held_swallowed = inv.held_swallowed;
    distinct = inv.distinct;
  }

  pub forward_down-Inv :
      (b : Option ℕ) → bit_of dec usage_of key ≡ b → Inv dec usage_of (forward_down raised b)
  unfolding forward_down record_forwarded_down raised
  forward_down-Inv none eq = raised-Inv
  forward_down-Inv (some bit) eq = record {
    state_bits = raised-Inv.state_bits;
    forwarded_bits = λ i below h. elim (Bool-cases (i == bit)) [
      | inl own ↦ (key, key_pressed, unswallowed, ground (arith, eq))
      | inr other ↦
          raised-Inv.forwarded_bits i below
            (ground (arith, has-bit_or forwarded_modifiers (2 ^ bit) i, has-pow bit i))
    ];
    consumed_bits = λ i below h.
        raised-Inv.consumed_bits i below
          (ground (arith, has_clear consumed_modifiers (2 ^ bit) i below));
    apart = λ i below h. ground (
      arith,
      inv.apart i below,
      has-bit_or forwarded_modifiers (2 ^ bit) i,
      has_clear consumed_modifiers (2 ^ bit) i below,
    );
    swallowed_pressed = raised-Inv.swallowed_pressed;
    held_swallowed = raised-Inv.held_swallowed;
    distinct = raised-Inv.distinct;
  }

  answer-Inv :
      (found : Option (List NativeKey))
      → Inv dec usage_of (answer dec raised key (bit_of dec usage_of key) e.modifier_state found).0
  unfolding answer raised
  answer-Inv none = forward_down-Inv (bit_of dec usage_of key) refl
  answer-Inv (some outputs) = fire-Inv dec usage_of e key inv up outputs

  -- Any fresh key-down keeps the invariant, whatever the rules and the emitter's reachability.
  pub decide_fresh-Inv :
      (lookup : Lookup) (device_id : Option Str) (reachable : Bool)
      → Inv dec usage_of (decide_fresh dec lookup e key (usage_of key) device_id reachable).0
  unfolding decide_fresh raised
  decide_fresh-Inv lookup device_id false = raised-Inv
  decide_fresh-Inv lookup device_id true =
      answer-Inv (resolve lookup (usage_of key) e.modifier_state device_id)

module _ {ℓ} {K : Type ℓ} (dec : Discrete K) (usage_of : K → HidUsage) (lookup : Lookup) where
  decide_down-Inv :
      (e : MappingEngine K) (key : K) (device_id : Option Str) (reachable : Bool)
      → Inv dec usage_of e
      → Inv dec usage_of (decide_down dec lookup e key (usage_of key) device_id reachable).0
  unfolding decide_down
  decide_down-Inv e key device_id reachable inv =
      elim (Bool-cases (contains dec key e.tracker.pressed_keys)) [
        | inl repeat ↦ rw (repeat, decide_down) inv
        | inr fresh ↦
            rw (fresh, decide_down)
              (decide_fresh-Inv dec usage_of e key inv fresh lookup device_id reachable)
      ]

  -- Every decision keeps the invariant: a key-down or a key-up, mapped or not, with any rules and
  -- with the emitter reachable or not, of a keyboard whose keys report `usage_of`.
  pub decide-Inv :
      (e : MappingEngine K) (key : K) (is_down : Bool) (device_id : Option Str) (reachable : Bool)
      → Inv dec usage_of e
      → Inv dec usage_of (decide dec lookup e key (usage_of key) is_down device_id reachable).0
  unfolding decide
  decide-Inv e key true device_id reachable inv = decide_down-Inv e key device_id reachable inv
  decide-Inv e key false device_id reachable inv = decide_up-Inv dec usage_of e key inv
