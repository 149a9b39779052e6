-- ===== src/Platform/Linux/Device/TakeOver.antt =====
-- src/platform/linux/mapping/mod.rs: the grab of a keyboard and the invariant of the engine.
use keymapper_rs.Prelude.{
  ℕ, ◌≡◌, refl, inl, inr, Bool, true, false, List, [], ◌∷◌, Option, some, contains, ℕ_discrete,
  Bool-cases,
}
use keymapper_rs.Common.Str.{Str}
use keymapper_rs.Common.HidUsage.{HidUsage}
use keymapper_rs.Core.Lookup.{Lookup}
use keymapper_rs.Core.Engine.{new}
use keymapper_rs.Core.Engine.Inv.{Inv}
use keymapper_rs.Core.Engine.Run.{new-Inv}
use keymapper_rs.Platform.Linux.Capture.{InputEvent}
use keymapper_rs.Platform.Linux.Keycode.Usage.{keycode_to_hid_usage}
use keymapper_rs.Platform.Linux.Device.{ManagedDevice}
use keymapper_rs.Platform.Linux.Device.Startup.{capture_held_keys, Read, native_release_window}
use keymapper_rs.Platform.Linux.Device.Held.{
  NoDuplicates, Started, note_held_keys-Started, window_loop-Started,
}
use keymapper_rs.Platform.Linux.Device.Lifecycle.{take_over, passes, ReportsAll}
use keymapper_rs.Platform.Linux.Device.Passes.{passes-Inv}

module _ (usage_of : ℕ → HidUsage)
    (reports : (code : ℕ) (u : HidUsage)
      → keycode_to_hid_usage code ≡ some u
      → u ≡ usage_of code) where
  new-Started : Started usage_of reports new
  unfolding new contains
  new-Started = record {
    inv = new-Inv ℕ_discrete usage_of;
    no_swallowed = λ k. refl;
    no_consumed = refl;
  }

  native_release_window-Started :
      (managed : ManagedDevice) (held : List ℕ) (drained ungrabbed : Bool) (reads : List Read)
      → Started usage_of reports managed.engine
      → Started usage_of reports
          (native_release_window managed held drained ungrabbed reads).0.engine
  unfolding native_release_window
  native_release_window-Started managed [] drained true reads s = elim (Bool-cases drained) [
    | inl found ↦
        rw (found, native_release_window)
          (window_loop-Started usage_of reports reads false managed [] s)
    | inr none_found ↦ rw (none_found, native_release_window) s
  ]
  native_release_window-Started managed [] true false reads s = s
  native_release_window-Started managed [] false false reads s = s
  native_release_window-Started managed (code ∷ held) drained true reads s =
      window_loop-Started usage_of reports reads true managed (code ∷ held) s
  native_release_window-Started managed (code ∷ held) drained false reads s = s

  take_over-Started :
      (path : Str) (hot_plugged : Bool) (held : List ℕ) (drained ungrabbed : Bool)
      (reads : List Read)
      → NoDuplicates held
      → Started usage_of reports
          (take_over path hot_plugged (some held) drained ungrabbed reads).engine
  unfolding take_over capture_held_keys new contains
  take_over-Started path hot_plugged held drained ungrabbed reads distinct =
      native_release_window-Started _ held drained ungrabbed reads
        (note_held_keys-Started usage_of reports new held distinct (λ c in_held. refl) new-Started)

  -- The engine of a managed keyboard is sound from its grab on. If no key stands twice in the key
  -- state of the kernel, and every key that has an identity reports `usage_of`, by the table of the
  -- key codes and in all events, then whatever the window, the events, the failing reads and the
  -- rules are, the engine satisfies its invariant after any number of passes of the event loop: each
  -- modifier bit is that of a key that is down or held by an output, and only keys that are down
  -- are swallowed.
  pub take_over-passes-Inv :
      (path : Str) (hot_plugged : Bool) (held : List ℕ) (drained ungrabbed : Bool)
      (reads : List Read) (msc_scan : ℕ) (batches : List (Option (List (Lookup × InputEvent))))
      → NoDuplicates held
      → let managed = take_over path hot_plugged (some held) drained ungrabbed reads in
        ReportsAll usage_of msc_scan managed.scanner batches
        → Inv ℕ_discrete usage_of (passes msc_scan managed batches).engine
  take_over-passes-Inv path hot_plugged held drained ungrabbed reads msc_scan batches distinct all =
      let managed = take_over path hot_plugged (some held) drained ungrabbed reads in
      let s = take_over-Started path hot_plugged held drained ungrabbed reads distinct in
      passes-Inv usage_of msc_scan batches managed managed.scanner refl all s.inv
