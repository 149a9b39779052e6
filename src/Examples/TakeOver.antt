-- ===== src/Examples/TakeOver.antt =====
-- A keyboard on which the left Shift and Return are held at the grab.
use keymapper_rs.Prelude.{
  ℕ, ◌≡◌, refl, sym, ap, true, false, List, [], ◌∷◌, Option, none, some, arith, contains,
  ℕ_discrete,
}
use mathlib.Core.Option
use keymapper_rs.Common.HidUsage.{HidUsage, from_code, code}
use keymapper_rs.Core.Lookup.{Lookup}
use keymapper_rs.Core.Engine.{or_else}
use keymapper_rs.Core.Engine.Inv.{Inv}
use keymapper_rs.Platform.Linux.Keycode.{from_native}
use keymapper_rs.Platform.Linux.Keycode.Usage.{keycode_to_hid_usage, to_hid_usage}
use keymapper_rs.Platform.Linux.Capture.{EventType, InputEvent, scanned_usage, on_event}
use keymapper_rs.Platform.Linux.Device.{ManagedDevice}
use keymapper_rs.Platform.Linux.Device.Startup.{Read}
use keymapper_rs.Platform.Linux.Device.Held.{NoDuplicates}
use keymapper_rs.Platform.Linux.Device.Lifecycle.{take_over, passes, ReportsAll}
use keymapper_rs.Platform.Linux.Device.TakeOver.{take_over-passes-Inv}

abbrev usage_of : ℕ → HidUsage
usage_of c = Option.get_or (keycode_to_hid_usage c) HidUsage.left_control

reports : (c : ℕ) (u : HidUsage) → keycode_to_hid_usage c ≡ some u → u ≡ usage_of c
reports c u h = sym (ap (λ o. Option.get_or o HidUsage.left_control) h)

abbrev held : List ℕ
held = 42 ∷ 28 ∷ []

held_once : NoDuplicates held
unfolding contains ℕ_discrete
held_once = (refl, (refl, omega arith))

-- Return is released within the window.
abbrev reads : List Read
reads =
    Read.again ∷ Read.batch (record { event_type = EventType.key; code = 28; value = 0 } ∷ []) ∷ []

abbrev silent_lookup : Lookup
silent_lookup = record {
  for_app = λ app usage modifiers device_id. none;
  for_active_app = λ usage modifiers device_id. none;
  global = λ usage modifiers device_id. none;
}

-- A, with its scan code, and then a read that fails.
abbrev batches : List (Option (List (Lookup × InputEvent)))
batches =
    some (
      (silent_lookup, record { event_type = EventType.misc; code = 4; value = 0x70004 })
      ∷ (silent_lookup, record { event_type = EventType.key; code = 30; value = 1 })
      ∷ [])
    ∷ none
    ∷ []

abbrev keyboard : ManagedDevice
keyboard = take_over [] false (some held) true true reads

batches_report : ReportsAll usage_of 4 keyboard.scanner batches
unfolding on_event scanned_usage or_else from_code code keycode_to_hid_usage from_native
    to_hid_usage
batches_report = ((omega arith, ((λ u h. cc h), omega arith)), omega arith)

take_over-passes-Inv_example : Inv ℕ_discrete usage_of (passes 4 keyboard batches).engine
take_over-passes-Inv_example =
    take_over-passes-Inv usage_of reports [] false held true true reads 4 batches held_once
      batches_report
