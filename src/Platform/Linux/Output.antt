-- ===== src/Platform/Linux/Output.antt =====
-- src/platform/linux/mapping/device.rs and src/platform/linux/mapping/mod.rs: the virtual keyboard and
-- the events that are written to it. The pauses between the events are left out.
pub mod State
pub mod Masks
pub mod Tap
pub mod Hold
pub mod Failure
use keymapper_rs.Prelude.{
  ℕ, ◌^◌, Bool, true, false, not, ◌&&◌, List, [], ◌∷◌, ◌++◌, Option, none, some, bit_and, ◌==◌,
  if◌then◌else◌,
}
use keymapper_rs.Bits.{has}
use keymapper_rs.Common.Frame.{Result, ok, err}
use keymapper_rs.Common.HidUsage.{HidUsage, keyboard, hid_usage_to_modifier_bit}
use keymapper_rs.Common.Modifier.{ModifierRole, try_from_bit, hid_id}
use keymapper_rs.Core.Rules.{NativeKey}
use keymapper_rs.Platform.Backend.{OutputAction}
use keymapper_rs.Platform.Linux.Capture.{EventType, InputEvent}
use keymapper_rs.Platform.Linux.Keycode.Usage.{hid_usage_to_keycode, keycode_to_hid_usage}

-- The virtual device: the events written so far, in order, and whether each of the next calls of
-- `emit` succeeds; calls beyond this list do. A call that fails writes nothing.
pub record VirtualDevice : Type 0 where
  pub written : List InputEvent
  pub outcomes : List Bool

pub data EmitError : Type 0 where
  no_key_code : HidUsage → EmitError
  write_failed : EmitError

unfoldable pub write : VirtualDevice → List InputEvent → VirtualDevice × Bool
write d events = elim d.outcomes [
  | [] ↦ (record { written = d.written ++ events; outcomes = [] }, true)
  | true ∷ outcomes ↦ (record { written = d.written ++ events; outcomes = outcomes }, true)
  | false ∷ outcomes ↦ (record { written = d.written; outcomes = outcomes }, false)
]

abbrev pub key_event : ℕ → ℕ → InputEvent
key_event code value = record { event_type = EventType.key; code = code; value = value }

abbrev pub syn_report : InputEvent
syn_report = record { event_type = EventType.synchronization; code = 0; value = 0 }

-- One key event and its report: the closure `emit` of `emit_key_event`.
unfoldable pub write_key : VirtualDevice → ℕ → ℕ → VirtualDevice × Bool
unfolding write
write_key d code value = write d (key_event code value ∷ syn_report ∷ [])

unfoldable pub role_to_keycode : Option ModifierRole → Option ℕ
unfolding hid_id keyboard hid_usage_to_keycode
role_to_keycode none = none
role_to_keycode (some role) = elim (keyboard (hid_id role)) [
  | none ↦ none
  | some usage ↦ hid_usage_to_keycode usage
]

unfoldable pub modifier_bit_to_keycode : ℕ → Option ℕ
unfolding try_from_bit role_to_keycode
modifier_bit_to_keycode bit = role_to_keycode (try_from_bit bit)

-- `0..8`.
abbrev pub bits : List ℕ
bits = 0 ∷ 1 ∷ 2 ∷ 3 ∷ 4 ∷ 5 ∷ 6 ∷ 7 ∷ []

-- The closure `cleanup`, for the codes in the order in which it releases them.
unfoldable pub release_all : VirtualDevice → List ℕ → VirtualDevice
unfolding write_key
release_all d [] = d
release_all d (code ∷ codes) = release_all (write_key d code 0).0 codes

-- The key code of a bit, if the mask has the bit.
unfoldable pub set_code : ℕ → ℕ → Option ℕ
unfolding has modifier_bit_to_keycode
set_code modifiers bit = if has modifiers bit then modifier_bit_to_keycode bit else none

-- The loop over the modifiers of a tap. `pressed` is the last code first.
unfoldable pub press_modifiers :
    VirtualDevice → ℕ → List ℕ → List ℕ → VirtualDevice × Result EmitError (List ℕ)
unfolding set_code write_key
press_modifiers d modifiers [] pressed = (d, ok pressed)
press_modifiers d modifiers (bit ∷ rest) pressed = elim (set_code modifiers bit) [
  | none ↦ press_modifiers d modifiers rest pressed
  | some code ↦
      let d' = write_key d code 1 in
      let pressed_rest = press_modifiers d'.0 modifiers rest (code ∷ pressed) in
      if d'.1 then pressed_rest else (d'.0, err write_failed)
]

-- The base key and the release of the modifiers, after the modifiers are pressed.
unfoldable pub tap_base :
    ℕ → VirtualDevice × Result EmitError (List ℕ) → VirtualDevice × Result EmitError Bool
unfolding write_key release_all
tap_base base_code (d, err e) = (d, err e)
tap_base base_code (d, ok pressed) =
    let down = write_key d base_code 1 in
    let up = write_key down.0 base_code 0 in
    if not down.1
    then (down.0, err write_failed)
    else if not up.1
    then (up.0, err write_failed)
    else (release_all up.0 pressed, ok true)

-- `Ok(())` is `ok true`.
unfoldable pub emit_key_event : VirtualDevice → NativeKey → VirtualDevice × Result EmitError Bool
unfolding hid_usage_to_keycode tap_base press_modifiers
emit_key_event d native_key = elim (hid_usage_to_keycode native_key.usage) [
  | none ↦ (d, err (no_key_code native_key.usage))
  | some base_code ↦ tap_base base_code (press_modifiers d native_key.modifiers bits [])
]

-- `base_bit == Some(bit)`.
abbrev pub is_bit : Option ℕ → ℕ → Bool
is_bit none bit = false
is_bit (some b) bit = b == bit

-- The codes of the modifiers of an output other than its own, in the order of the bits.
unfoldable pub other_codes : ℕ → Option ℕ → List ℕ → List ℕ
unfolding set_code
other_codes modifiers base_bit [] = []
other_codes modifiers base_bit (bit ∷ rest) =
    let codes = other_codes modifiers base_bit rest in
    if is_bit base_bit bit
    then codes
    else elim (set_code modifiers bit) [ none ↦ codes | some code ↦ code ∷ codes ]

-- The code of the output's own modifier.
unfoldable pub base_codes : Option ℕ → List ℕ
base_codes none = []
base_codes (some bit) = elim (modifier_bit_to_keycode bit) [ none ↦ [] | some code ↦ code ∷ [] ]

-- The codes to press, the output's own modifier last.
unfoldable pub held_codes : ℕ → Option ℕ → List ℕ
unfolding other_codes base_codes
held_codes modifiers base_bit = other_codes modifiers base_bit bits ++ base_codes base_bit

-- The loop that presses the codes. `pressed` is the last code first.
unfoldable pub press_held : VirtualDevice → List ℕ → List ℕ → VirtualDevice × Result EmitError Bool
unfolding write_key release_all
press_held d [] pressed = (d, ok true)
press_held d (code ∷ codes) pressed =
    let d' = write_key d code 1 in
    let rest = press_held d'.0 codes (code ∷ pressed) in
    if d'.1 then rest else (release_all d'.0 pressed, err write_failed)

unfoldable pub hold_modifier_output :
    VirtualDevice → NativeKey → VirtualDevice × Result EmitError Bool
hold_modifier_output d native_key =
    press_held d (held_codes native_key.modifiers (hid_usage_to_modifier_bit native_key.usage)) []

unfoldable pub is_modifier : Option HidUsage → Bool
unfolding hid_usage_to_modifier_bit
is_modifier none = false
is_modifier (some usage) = elim (hid_usage_to_modifier_bit usage) [ none ↦ false | some _ ↦ true ]

unfoldable pub forward_key_event : VirtualDevice → ℕ → ℕ → VirtualDevice
unfolding keycode_to_hid_usage is_modifier write_key write
forward_key_event d code value =
    if value == 2
    then (if is_modifier (keycode_to_hid_usage code)
        then d
        else (write d (key_event code 1 ∷ key_event code 0 ∷ syn_report ∷ [])).0)
    else (write_key d code value).0

-- The key code of a bit, if the mask has the bit.
unfoldable pub consumed_code : ℕ → ℕ → Option ℕ
unfolding modifier_bit_to_keycode
consumed_code consumed bit =
    if bit_and consumed (2 ^ bit) == 0 then none else modifier_bit_to_keycode bit

-- The loop over the bits; it ignores failures.
unfoldable pub release_bits : VirtualDevice → ℕ → List ℕ → VirtualDevice
unfolding consumed_code write_key
release_bits d consumed [] = d
release_bits d consumed (bit ∷ rest) = elim (consumed_code consumed bit) [
  | none ↦ release_bits d consumed rest
  | some code ↦ release_bits (write_key d code 0).0 consumed rest
]

unfoldable pub release_consumed_modifiers : VirtualDevice → ℕ → VirtualDevice
unfolding release_bits
release_consumed_modifiers d consumed = release_bits d consumed bits

-- `LinuxEmitter::emit`, which logs the errors.
unfoldable pub emit : VirtualDevice → OutputAction → VirtualDevice
unfolding forward_key_event release_consumed_modifiers emit_key_event hold_modifier_output
emit d (OutputAction.forward native value) = forward_key_event d native value
emit d (OutputAction.release_consumed consumed) = release_consumed_modifiers d consumed
emit d (OutputAction.tap native_key) = (emit_key_event d native_key).0
emit d (OutputAction.hold native_key) = (hold_modifier_output d native_key).0

unfoldable pub emit_actions : VirtualDevice → List OutputAction → VirtualDevice
unfolding emit
emit_actions d [] = d
emit_actions d (action ∷ actions) = emit_actions (emit d action) actions
