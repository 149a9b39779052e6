-- ===== src/Core/Engine.antt =====
-- src/keymap_core/engine.rs, `MappingEngine`: the decision for each key event.
pub mod Inv
pub mod Witness
pub mod Hold
pub mod Up
pub mod Down
pub mod Fire
pub mod Keys
pub mod Run
pub mod Pairing
pub mod CleanTap
pub mod Grab
use keymapper_rs.Prelude.{
  ℕ, ◌^◌, Bool, false, not, ◌||◌, List, [], ◌∷◌, Option, none, some, bit_and, bit_or, ◌==◌,
  if◌then◌else◌, contains, insert, remove,
}
use mathlib.Core.Option
use keymapper_rs.Bits.{bit_not}
use keymapper_rs.Common.Str.{Str}
use keymapper_rs.Common.HidUsage.{HidUsage, hid_usage_to_modifier_bit}
use keymapper_rs.Core.Rules.{NativeKey}
use keymapper_rs.Core.Lookup.{Lookup}
use keymapper_rs.Core.Tracker.{
  KeyTracker, ReleaseFate, default, record_forwarded_down, consume_triggered, hold_output_modifiers,
  release,
}

pub data Decision : Type 0 where
  pass : Decision
  emit : (released : ℕ) (outputs : List NativeKey) → Decision
  swallow : (released : ℕ) → Decision
  consumed_release : Decision

-- The engine without its shared lookup, which each call of `decide` is given as it is then.
pub record MappingEngine {ℓ} (K : Type ℓ) : Type ℓ where
  pub modifier_state : ℕ
  pub tracker : KeyTracker K

-- `state |= 1 << bit` and `state &= !(1 << bit)`, for the bit of a modifier usage.
unfoldable pub set_bit_of : Option ℕ → ℕ → ℕ
set_bit_of none state = state
set_bit_of (some bit) state = bit_or state (2 ^ bit)

unfoldable pub clear_bit_of : Option ℕ → ℕ → ℕ
clear_bit_of none state = state
clear_bit_of (some bit) state = bit_and state (bit_not (2 ^ bit))

unfoldable pub output_held_mask : NativeKey → Option ℕ
output_held_mask native_key =
    Option.map (λ bit. bit_or (2 ^ bit) native_key.modifiers)
      (hid_usage_to_modifier_bit native_key.usage)

unfoldable pub or_else {ℓ} : {A : Type ℓ} → Option A → Option A → Option A
or_else (some a) other = some a
or_else none other = other

-- App-scoped rules take precedence over global ones.
unfoldable pub resolve : Lookup → HidUsage → ℕ → Option Str → Option (List NativeKey)
unfolding or_else
resolve lookup usage modifiers device_id =
    or_else (lookup.for_active_app usage modifiers device_id)
      (lookup.global usage modifiers device_id)

module _ {ℓ} {K : Type ℓ} where
  unfoldable pub new : MappingEngine K
  unfolding default
  new = record { modifier_state = 0; tracker = default }

  -- The arm of an unmapped key-down.
  unfoldable pub forward_down : MappingEngine K → Option ℕ → MappingEngine K
  forward_down e none = e
  forward_down e (some bit) = record e { tracker = record_forwarded_down e.tracker bit }

  -- The `match` on the fate that the tracker gives a key-up.
  unfoldable pub settle : ℕ → KeyTracker K × Option ReleaseFate → MappingEngine K × Decision
  settle state (t, some (ReleaseFate.swallow released)) = (
    record {
      modifier_state = if released == 0 then state else bit_and state (bit_not released);
      tracker = t;
    },
    swallow released,
  )
  settle state (t, some ReleaseFate.consumed) =
      (record { modifier_state = state; tracker = t }, consumed_release)
  settle state (t, none) = (record { modifier_state = state; tracker = t }, pass)

  unfoldable pub held_modifier_forwarded : MappingEngine K → HidUsage → Bool
  held_modifier_forwarded e usage = elim (hid_usage_to_modifier_bit usage) [
    | none ↦ false
    | some bit ↦ not (bit_and e.tracker.forwarded_modifiers (2 ^ bit) == 0)
  ]

module _ {ℓ} {K : Type ℓ} (dec : Discrete K) where
  unfoldable pub mark_stale : KeyTracker K → K → KeyTracker K
  mark_stale t key = record t { stale_keys = insert dec key t.stale_keys }

  unfoldable pub note_held : MappingEngine K → K → Option ℕ → MappingEngine K
  unfolding mark_stale
  note_held e key none = record e { tracker = mark_stale e.tracker key }
  note_held e key (some bit) = record e {
    modifier_state = bit_or e.modifier_state (2 ^ bit);
    tracker = record_forwarded_down e.tracker bit;
  }

  unfoldable pub note_held_key : MappingEngine K → K → HidUsage → MappingEngine K
  unfolding note_held
  note_held_key e key usage =
      let pressed = record (e.tracker) { pressed_keys = insert dec key e.tracker.pressed_keys } in
      note_held (record e { tracker = pressed }) key (hid_usage_to_modifier_bit usage)

  unfoldable pub note_stale_key : MappingEngine K → K → MappingEngine K
  unfolding mark_stale
  note_stale_key e key = record e { tracker = mark_stale e.tracker key }

  unfoldable pub has_stale_key : MappingEngine K → K → Bool
  has_stale_key e key = contains dec key e.tracker.stale_keys

  unfoldable pub clear_stale : KeyTracker K → K → KeyTracker K
  clear_stale t key = record t { stale_keys = remove dec key t.stale_keys }

  unfoldable pub clear_stale_key : MappingEngine K → K → MappingEngine K
  unfolding clear_stale
  clear_stale_key e key = record e { tracker = clear_stale e.tracker key }

  unfoldable pub unnote_held : MappingEngine K → K → Option ℕ → MappingEngine K
  unfolding clear_stale
  unnote_held e key none = record e { tracker = clear_stale e.tracker key }
  unnote_held e key (some bit) = record e {
    modifier_state = bit_and e.modifier_state (bit_not (2 ^ bit));
    tracker = record (e.tracker) {
      forwarded_modifiers = bit_and e.tracker.forwarded_modifiers (bit_not (2 ^ bit));
    };
  }

  unfoldable pub unnote_held_key : MappingEngine K → K → HidUsage → MappingEngine K
  unfolding unnote_held
  unnote_held_key e key usage =
      let pressed = record (e.tracker) { pressed_keys = remove dec key e.tracker.pressed_keys } in
      unnote_held (record e { tracker = pressed }) key (hid_usage_to_modifier_bit usage)

  -- The loop over the outputs: the tracker, and the bits that are now held for `key`.
  unfoldable pub hold_outputs : KeyTracker K → K → List NativeKey → ℕ → KeyTracker K × ℕ
  hold_outputs t key [] held_mask = (t, held_mask)
  hold_outputs t key (native_key ∷ rest) held_mask = elim (output_held_mask native_key) [
    | none ↦ hold_outputs t key rest held_mask
    | some mask ↦
        hold_outputs (hold_output_modifiers dec t key mask) key rest (bit_or held_mask mask)
  ]

  -- The arm of a mapped key-down: `lookup_modifiers` is the state before the key's own bit.
  unfoldable pub fire :
      MappingEngine K → K → Option ℕ → ℕ → List NativeKey → MappingEngine K × Decision
  unfolding clear_bit_of
  fire e key bit lookup_modifiers outputs =
      let swallowed = record (e.tracker) {
        swallowed_keys = insert dec key e.tracker.swallowed_keys;
      } in
      let after = consume_triggered swallowed lookup_modifiers in
      let state = clear_bit_of bit (bit_and e.modifier_state (bit_not after.1.1)) in
      let held = hold_outputs after.0 key outputs 0 in
      (
        record {
          modifier_state = if held.1 == 0 then state else bit_or state held.1;
          tracker = held.0;
        },
        emit after.1.0 outputs,
      )

  -- The `match outputs`.
  unfoldable pub answer :
      MappingEngine K → K → Option ℕ → ℕ → Option (List NativeKey) → MappingEngine K × Decision
  unfolding fire forward_down
  answer e key bit lookup_modifiers (some outputs) = fire e key bit lookup_modifiers outputs
  answer e key bit lookup_modifiers none = (forward_down e bit, pass)

  -- The bookkeeping of a fresh key-down, which is done whatever the answer.
  abbrev pub mark_down : MappingEngine K → K → Option ℕ → MappingEngine K
  mark_down e key bit = record {
    modifier_state = set_bit_of bit e.modifier_state;
    tracker = record (e.tracker) { pressed_keys = insert dec key e.tracker.pressed_keys };
  }

  -- A fresh key-down, past the check for an auto-repeat.
  unfoldable pub decide_fresh :
      Lookup → MappingEngine K → K → HidUsage → Option Str → Bool → MappingEngine K × Decision
  unfolding resolve answer
  decide_fresh lookup e key usage device_id reachable =
      let bit = hid_usage_to_modifier_bit usage in
      let lookup_modifiers = e.modifier_state in
      let e' : MappingEngine K = mark_down e key bit in
      if not reachable
      then (e', pass)
      else answer e' key bit lookup_modifiers (resolve lookup usage lookup_modifiers device_id)

  unfoldable pub decide_down :
      Lookup → MappingEngine K → K → HidUsage → Option Str → Bool → MappingEngine K × Decision
  unfolding decide_fresh
  decide_down lookup e key usage device_id reachable =
      if contains dec key e.tracker.pressed_keys
      then (
        e,
        if contains dec key e.tracker.swallowed_keys || contains dec key e.tracker.stale_keys
            then swallow 0
            else pass,
      )
      else decide_fresh lookup e key usage device_id reachable

  unfoldable pub decide_up : MappingEngine K → K → HidUsage → MappingEngine K × Decision
  unfolding clear_bit_of settle
  decide_up e key usage =
      let t = record (e.tracker) {
        pressed_keys = remove dec key e.tracker.pressed_keys;
        stale_keys = remove dec key e.tracker.stale_keys;
      } in
      if not (contains dec key e.tracker.pressed_keys)
      then (e, pass)
      else settle (clear_bit_of (hid_usage_to_modifier_bit usage) e.modifier_state)
          (release dec t key usage)

  unfoldable pub decide :
      Lookup
      → MappingEngine K
      → K
      → HidUsage
      → Bool
      → Option Str
      → Bool
      → MappingEngine K × Decision
  unfolding decide_down decide_up
  decide lookup e key usage is_down device_id reachable =
      if is_down then decide_down lookup e key usage device_id reachable else decide_up e key usage
