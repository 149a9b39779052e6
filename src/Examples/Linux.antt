-- ===== src/Examples/Linux.antt =====
-- The virtual keyboard and a managed keyboard of Linux.
use keymapper_rs.Prelude.{
  ℕ, ◌<◌, ◌/◌, ◌%◌, ◌≡◌, refl, true, false, not, ◌&&◌, ◌||◌, List, [], ◌∷◌, none, some, arith, ◌==◌,
  ltb, length, take, contains, ℕ_discrete,
}
use keymapper_rs.Bits.{has}
use keymapper_rs.Common.Frame.{ok, err}
use keymapper_rs.Common.HidUsage.{HidUsage, hid_usage_to_modifier_bit}
use keymapper_rs.Core.Rules.{NativeKey}
use keymapper_rs.Core.Lookup.{Lookup}
use keymapper_rs.Core.Engine.{output_held_mask, new}
use keymapper_rs.Platform.Backend.{OutputAction}
use keymapper_rs.Platform.Linux.Keycode.Usage.{hid_usage_to_keycode}
use keymapper_rs.Platform.Linux.Capture.{EventType, InputEvent}
use keymapper_rs.Platform.Linux.Output.{
  VirtualDevice, EmitError, key_event, syn_report, bits, emit_key_event, release_consumed_modifiers,
  hold_modifier_output, held_codes, other_codes, base_codes, set_code, modifier_bit_to_keycode,
  emit_actions,
}
use keymapper_rs.Platform.Linux.Output.State.{is_down, Works, member}
use keymapper_rs.Platform.Linux.Output.Masks.{of_mask, set_codes}
use keymapper_rs.Platform.Linux.Output.Tap.{
  is_down-emit_key_event, is_down-release_consumed_modifiers,
}
use keymapper_rs.Platform.Linux.Output.Hold.{
  IsHeld, hold_modifier_output-IsHeld, is_down-hold_release,
}
use keymapper_rs.Platform.Linux.Output.Failure.{emit_key_event-fails, hold_modifier_output-fails}
use keymapper_rs.Platform.Linux.Device.{ManagedDevice, process_device_events}
use keymapper_rs.Platform.Linux.Device.Bitmap
use keymapper_rs.Platform.Linux.Device.Bitmap.{byte_at, parse_key_bitmap, member-parse_key_bitmap}
use keymapper_rs.Platform.Linux.Device.Plain.{IsPlain, Silent}
use keymapper_rs.Platform.Linux.Device.Written.{
  IsTransparent, written_for, process_device_events-IsTransparent,
}

-- A device on which the left Alt is down.
abbrev alt_down : VirtualDevice
alt_down = record {
  written = record { event_type = EventType.key; code = 56; value = 1 } ∷ [];
  outcomes = [];
}

abbrev shift_e : NativeKey
shift_e = record { modifiers = 2; usage = HidUsage.key_e }

is_down-emit_key_event_example :
    (base_code : ℕ) × (hid_usage_to_keycode HidUsage.key_e ≡ some base_code)
    × ((emit_key_event alt_down shift_e).1 ≡ ok true)
    × Works (emit_key_event alt_down shift_e).0
    × ((c : ℕ)
        → is_down (emit_key_event alt_down shift_e).0 c
          ≡ (not (c == base_code || of_mask 2 c) && is_down alt_down c))
is_down-emit_key_event_example = is_down-emit_key_event alt_down shift_e refl

is_down-release_consumed_modifiers_example :
    Works (release_consumed_modifiers alt_down 4)
    × ((c : ℕ)
        → is_down (release_consumed_modifiers alt_down 4) c
          ≡ (not (of_mask 4 c) && is_down alt_down c))
is_down-release_consumed_modifiers_example = is_down-release_consumed_modifiers alt_down 4 refl

-- Ctrl and Shift as one output.
abbrev ctrl_shift : NativeKey
ctrl_shift = record { modifiers = 2; usage = HidUsage.left_control }

ctrl_shift_mask : output_held_mask ctrl_shift ≡ some 3
unfolding output_held_mask hid_usage_to_modifier_bit
ctrl_shift_mask = refl

hold_modifier_output-IsHeld_example :
    IsHeld alt_down (of_mask 3) (hold_modifier_output alt_down ctrl_shift)
hold_modifier_output-IsHeld_example =
    hold_modifier_output-IsHeld alt_down ctrl_shift 3 refl ctrl_shift_mask

is_down-hold_release_example :
    is_down
      (emit_actions alt_down (OutputAction.hold ctrl_shift ∷ OutputAction.release_consumed 3 ∷ []))
      56
    ≡ (not (of_mask 3 56) && is_down alt_down 56)
is_down-hold_release_example = is_down-hold_release alt_down ctrl_shift 3 56 refl ctrl_shift_mask

-- A device that fails at the second write.
abbrev fails_second : VirtualDevice
fails_second = record { written = []; outcomes = true ∷ false ∷ [] }

two_codes : 1 < length (held_codes 2 (hid_usage_to_modifier_bit HidUsage.left_control))
unfolding held_codes hid_usage_to_modifier_bit other_codes base_codes set_code
    modifier_bit_to_keycode has
two_codes = omega arith

hold_modifier_output-fails_example :
    ((hold_modifier_output fails_second ctrl_shift).1 ≡ err EmitError.write_failed)
    × ((c : ℕ)
        → is_down (hold_modifier_output fails_second ctrl_shift).0 c ≡ (
            not (member c (take 1 (held_codes 2 (hid_usage_to_modifier_bit HidUsage.left_control))))
            && is_down fails_second c))
hold_modifier_output-fails_example =
    hold_modifier_output-fails fails_second ctrl_shift 1 refl two_codes

two_modifiers : 1 < length (set_codes 3 bits)
unfolding set_code modifier_bit_to_keycode has
two_modifiers = omega arith

-- Ctrl and Shift before an E: the Ctrl stays down when the Shift cannot be written.
emit_key_event-fails_example :
    ((emit_key_event fails_second (record { modifiers = 3; usage = HidUsage.key_e })).1
      ≡ err EmitError.write_failed)
    × ((c : ℕ)
        → is_down
            (emit_key_event fails_second (record { modifiers = 3; usage = HidUsage.key_e })).0
            c
          ≡ (member c (take 1 (set_codes 3 bits)) || is_down fails_second c))
emit_key_event-fails_example =
    emit_key_event-fails fails_second (record { modifiers = 3; usage = HidUsage.key_e }) 1 refl
      two_modifiers

member-parse_key_bitmap_example :
    Bitmap.member 13 (parse_key_bitmap (4 ∷ 32 ∷ []) 100)
    ≡ (ltb 13 100 && has (byte_at (13 / 8) (4 ∷ 32 ∷ [])) (13 % 8))
member-parse_key_bitmap_example =
    member-parse_key_bitmap (4 ∷ 32 ∷ []) 100 13 (omega arith) (omega arith)

abbrev no_rules : Lookup
no_rules = record {
  for_app = λ app usage modifiers device_id. none;
  for_active_app = λ usage modifiers device_id. none;
  global = λ usage modifiers device_id. none;
}

abbrev fresh_device : ManagedDevice
fresh_device = record {
  path = [];
  engine = new;
  scanner = record { pending_scan = none };
  pending_initial_state = false;
  pending_held_modifiers = [];
}

fresh_IsPlain : IsPlain new
unfolding new contains
fresh_IsPlain = record { no_swallowed = λ k. refl; no_stale = λ k. refl; no_consumed = refl }

-- Shift and A, with a scan code and a report, both repeated, and a key without an identity.
abbrev typed : List (Lookup × InputEvent)
typed =
    (no_rules, record { event_type = EventType.misc; code = 4; value = 0x70004 })
    ∷ (no_rules, record { event_type = EventType.key; code = 42; value = 1 })
    ∷ (no_rules, record { event_type = EventType.key; code = 42; value = 2 })
    ∷ (no_rules, record { event_type = EventType.key; code = 30; value = 1 })
    ∷ (no_rules, record { event_type = EventType.synchronization; code = 0; value = 0 })
    ∷ (no_rules, record { event_type = EventType.key; code = 30; value = 2 })
    ∷ (no_rules, record { event_type = EventType.key; code = 700; value = 1 })
    ∷ []

silent : Silent no_rules
silent = λ usage modifiers device_id. (refl, refl)

-- The Shift is not repeated, and the A is pressed and released.
typed_written :
    written_for typed
    ≡ key_event 42 1
      ∷ syn_report
      ∷ key_event 30 1
      ∷ syn_report
      ∷ key_event 30 1
      ∷ key_event 30 0
      ∷ syn_report
      ∷ key_event 700 1
      ∷ syn_report
      ∷ []
unfolding contains ℕ_discrete
typed_written = refl

process_device_events-IsTransparent_example :
    IsTransparent typed alt_down (process_device_events 4 fresh_device (some typed))
process_device_events-IsTransparent_example =
    process_device_events-IsTransparent 4 fresh_device typed alt_down
      (silent, (silent, (silent, (silent, (silent, (silent, (silent, tt))))))) fresh_IsPlain refl
