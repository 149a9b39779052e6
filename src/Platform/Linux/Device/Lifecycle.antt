-- ===== src/Platform/Linux/Device/Lifecycle.antt =====
-- src/platform/linux/mapping/mod.rs: a keyboard from its grab on, and the passes of the event loop
-- over it.
use keymapper_rs.Prelude.{
  ℕ, ◌≤◌, ◌≡◌, Bool, false, List, [], ◌∷◌, ◌++◌, Option, none, some, if◌then◌else◌,
}
use keymapper_rs.Common.Str.{Str}
use keymapper_rs.Common.HidUsage.{HidUsage}
use keymapper_rs.Core.Lookup.{Lookup}
use keymapper_rs.Core.Engine.{new}
use keymapper_rs.Platform.Backend.{CapturedKey, OutputAction}
use keymapper_rs.Platform.Linux.Capture.{InputEvent, KeyScanner, on_event}
use keymapper_rs.Platform.Linux.Device.{ManagedDevice, process_device_events}
use keymapper_rs.Platform.Linux.Device.Startup.{
  capture_held_keys, Read, native_release_window, plan_initial_state,
}

-- A grabbed keyboard joins the managed devices. `held` is the key state of the kernel, if it can be
-- read; a hot-plugged keyboard is synced later; and the rest is what the window meets.
unfoldable pub take_over :
    Str
    → (hot_plugged : Bool) → Option (List ℕ)
    → (drained : Bool) (ungrabbed : Bool) → List Read
    → ManagedDevice
unfolding new
take_over path hot_plugged held drained ungrabbed reads =
    let managed : ManagedDevice = record {
      path = path;
      engine = new;
      scanner = record { pending_scan = none };
      pending_initial_state = hot_plugged;
      pending_held_modifiers = [];
    } in
    let captured = capture_held_keys managed held in
    (native_release_window captured.0 captured.1 drained ungrabbed reads).0

-- One pass of the event loop over a device that is ready.
unfoldable pub device_pass :
    ℕ → ManagedDevice → Option (List (Lookup × InputEvent)) → ManagedDevice × List OutputAction
device_pass msc_scan managed fetched =
    let synced : ManagedDevice × List OutputAction =
      if managed.pending_initial_state
      then (let planned = plan_initial_state managed in
          (record (planned.0) { pending_initial_state = false }, planned.1))
      else (managed, []) in
    let processed = process_device_events msc_scan synced.0 fetched in
    (processed.0, synced.1 ++ processed.1)

-- All passes, one after the other.
abbrev pub passes : ℕ → ManagedDevice → List (Option (List (Lookup × InputEvent))) → ManagedDevice
passes msc_scan managed [] = managed
passes msc_scan managed (fetched ∷ rest) =
    passes msc_scan (device_pass msc_scan managed fetched).0 rest

-- A key that has an identity reports `usage_of`.
abbrev pub ReportsKey : (ℕ → HidUsage) → Option CapturedKey → Type 0
ReportsKey usage_of none = 0 ≤ 0
ReportsKey usage_of (some key) = (u : HidUsage) → key.usage ≡ some u → u ≡ usage_of key.native

-- Every key of the events does, as the scanner reads them.
abbrev pub Reports : (ℕ → HidUsage) → ℕ → KeyScanner → List (Lookup × InputEvent) → Type 0
Reports usage_of msc_scan scanner [] = 0 ≤ 0
Reports usage_of msc_scan scanner ((lookup, event) ∷ events) =
    let scanned = on_event msc_scan scanner event in
    ReportsKey usage_of scanned.1 × Reports usage_of msc_scan scanned.0 events

-- The scanner after the events.
abbrev pub scanner_after : ℕ → KeyScanner → List (Lookup × InputEvent) → KeyScanner
scanner_after msc_scan scanner [] = scanner
scanner_after msc_scan scanner ((lookup, event) ∷ events) =
    scanner_after msc_scan (on_event msc_scan scanner event).0 events

-- The same for all passes; a read that fails has no events.
abbrev pub ReportsAll :
    (ℕ → HidUsage) → ℕ → KeyScanner → List (Option (List (Lookup × InputEvent))) → Type 0
ReportsAll usage_of msc_scan scanner [] = 0 ≤ 0
ReportsAll usage_of msc_scan scanner (none ∷ rest) = ReportsAll usage_of msc_scan scanner rest
ReportsAll usage_of msc_scan scanner (some events ∷ rest) =
    Reports usage_of msc_scan scanner events
    × ReportsAll usage_of msc_scan (scanner_after msc_scan scanner events) rest
