-- ===== src/Platform/Linux/Capture.antt =====
-- src/platform/linux/capture.rs: from the raw events of a device to the keys.
use keymapper_rs.Prelude.{ℕ, Option, none, some, ◌==◌, if◌then◌else◌}
use keymapper_rs.Common.HidUsage.{HidUsage, from_code}
use keymapper_rs.Core.Engine.{or_else}
use keymapper_rs.Platform.Backend.{CapturedKey}
use keymapper_rs.Platform.Linux.Keycode.Usage.{keycode_to_hid_usage}

pub data EventType : Type 0 where
  synchronization key misc other : EventType

-- An `i32` value is here the number that `as u32` makes of it.
pub record InputEvent : Type 0 where
  pub event_type : EventType
  pub code : ℕ
  pub value : ℕ

pub record KeyScanner : Type 0 where
  pub pending_scan : Option ℕ

unfoldable pub scanned_usage : Option ℕ → Option HidUsage
unfolding from_code
scanned_usage none = none
scanned_usage (some scan) = from_code scan

-- `msc_scan` is the code of the scan events, `MiscCode::MSC_SCAN`.
unfoldable pub on_event : ℕ → KeyScanner → InputEvent → KeyScanner × Option CapturedKey
unfolding scanned_usage or_else keycode_to_hid_usage
on_event msc_scan scanner event = elim event.event_type [
  | EventType.misc ↦
      if event.code == msc_scan
      then (record { pending_scan = some event.value }, none)
      else (scanner, none)
  | EventType.key ↦ (
    record { pending_scan = none },
    some (record {
      native = event.code;
      value = event.value;
      usage = or_else (scanned_usage scanner.pending_scan) (keycode_to_hid_usage event.code);
    }),
  )
  | _ ↦ (scanner, none)
]
