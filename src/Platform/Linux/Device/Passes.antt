-- ===== src/Platform/Linux/Device/Passes.antt =====
-- src/platform/linux/mapping/mod.rs: the passes of the event loop and the invariant of the engine.
use keymapper_rs.Prelude.{
  ℕ, ◌≡◌, refl, sym, ap, subst, ◌∙◌, inl, inr, true, not, ◌&&◌, List, [], ◌∷◌, Option, none, some,
  ℕ_discrete, ◌==◌, Bool-cases, Option-cases,
}
use keymapper_rs.Common.Str.{Str}
use keymapper_rs.Common.HidUsage.{HidUsage}
use keymapper_rs.Core.Lookup.{Lookup}
use keymapper_rs.Core.Engine.{MappingEngine, has_stale_key, clear_stale_key, clear_stale}
use keymapper_rs.Core.Engine.Inv.{Inv}
use keymapper_rs.Core.Engine.Down.{decide-Inv}
use keymapper_rs.Core.Engine.Grab.{restaled}
use keymapper_rs.Platform.Backend.{CapturedKey, OutputAction}
use keymapper_rs.Platform.Linux.Capture.{InputEvent, KeyScanner, on_event}
use keymapper_rs.Platform.Linux.Device.{
  ManagedDevice, process_unknown, process_key, process_captured, process_events,
  process_device_events,
}
use keymapper_rs.Platform.Linux.Device.Startup.{plan_initial_state}
use keymapper_rs.Platform.Linux.Device.Lifecycle.{
  device_pass, passes, ReportsKey, Reports, scanner_after, ReportsAll,
}

module _ (usage_of : ℕ → HidUsage) where
  abbrev EngineInv : MappingEngine ℕ → Type 0
  EngineInv e = Inv ℕ_discrete usage_of e

  process_unknown-Inv :
      (e : MappingEngine ℕ) (code value : ℕ) (actions : List OutputAction)
      → EngineInv e
      → EngineInv (process_unknown e code value actions).0
  unfolding process_unknown has_stale_key clear_stale_key clear_stale
  process_unknown-Inv e code value actions inv =
      elim (Bool-cases (value == 2 && has_stale_key ℕ_discrete e code)) [
        | inl dropped ↦ rw (dropped, process_unknown) inv
        | inr kept ↦
            rw (kept, process_unknown)
              (elim (Bool-cases (value == 0)) [
                | inl up ↦ rw up (restaled ℕ_discrete usage_of e e.modifier_state _ refl inv)
                | inr down ↦ rw down inv
              ])
      ]

  process_key-Inv :
      (lookup : Lookup) (path : Str) (e : MappingEngine ℕ) (key : CapturedKey)
      (actions : List OutputAction)
      → ReportsKey usage_of (some key)
      → EngineInv e
      → EngineInv (process_key lookup path e key actions).0
  unfolding process_key
  process_key-Inv lookup path e key actions reports inv = elim (Option-cases key.usage) [
    | inr (u, known) ↦
        rw (known, process_key, reports u known)
          (decide-Inv ℕ_discrete usage_of lookup e key.native (not (key.value == 0)) (some path)
            true inv)
    | inl unknown ↦
        rw (unknown, process_key) (process_unknown-Inv e key.native key.value actions inv)
  ]

  -- The engine and the scanner after a batch.
  record IsKept (scanner : KeyScanner) (managed : ManagedDevice) : Type 0 where
    inv : EngineInv managed.engine
    scans : managed.scanner ≡ scanner

  process_captured-IsKept :
      (lookup : Lookup) (managed : ManagedDevice) (scanned : KeyScanner × Option CapturedKey)
      (actions : List OutputAction)
      → ReportsKey usage_of scanned.1
      → EngineInv managed.engine
      → IsKept scanned.0 (process_captured lookup managed scanned actions).0
  unfolding process_captured
  process_captured-IsKept lookup managed (scanner, none) actions reports inv = record {
    inv = inv;
    scans = refl;
  }
  process_captured-IsKept lookup managed (scanner, some key) actions reports inv = record {
    inv = process_key-Inv lookup managed.path managed.engine key actions reports inv;
    scans = refl;
  }

  process_events-IsKept :
      (msc_scan : ℕ) (events : List (Lookup × InputEvent)) (managed : ManagedDevice)
      (actions : List OutputAction) (scanner : KeyScanner)
      → managed.scanner ≡ scanner
      → Reports usage_of msc_scan scanner events
      → EngineInv managed.engine
      → IsKept
          (scanner_after msc_scan scanner events)
          (process_events msc_scan managed events actions).0
  unfolding process_events
  process_events-IsKept msc_scan [] managed actions scanner same reports inv = record {
    inv = inv;
    scans = same;
  }
  process_events-IsKept msc_scan ((lookup, event) ∷ events) managed actions scanner same
        (now, later) inv =
      let scanned = on_event msc_scan managed.scanner event in
      let scan_eq : scanned ≡ on_event msc_scan scanner event =
        ap (λ s. on_event msc_scan s event) same in
      let next = process_captured lookup managed scanned actions in
      let one =
        process_captured-IsKept lookup managed scanned actions
          (subst (λ (r : KeyScanner × Option CapturedKey). ReportsKey usage_of r.1) (sym scan_eq)
            now)
          inv in
      process_events-IsKept msc_scan events next.0 next.1 _ (one.scans ∙ ap (λ r. r.0) scan_eq)
        later one.inv

  device_pass-Inv :
      (msc_scan : ℕ) (managed : ManagedDevice) (events : List (Lookup × InputEvent))
      (scanner : KeyScanner)
      → managed.scanner ≡ scanner
      → Reports usage_of msc_scan scanner events
      → EngineInv managed.engine
      → IsKept
          (scanner_after msc_scan scanner events)
          (device_pass msc_scan managed (some events)).0
  unfolding device_pass process_device_events plan_initial_state
  device_pass-Inv msc_scan managed events scanner same reports inv =
      elim (Bool-cases managed.pending_initial_state) [
        | inl synced ↦
            rw (synced, device_pass)
              (process_events-IsKept msc_scan events _ [] scanner same reports inv)
        | inr later ↦
            rw (later, device_pass)
              (process_events-IsKept msc_scan events _ [] scanner same reports inv)
      ]

  failed_pass-IsKept :
      (msc_scan : ℕ) (managed : ManagedDevice)
      → EngineInv managed.engine
      → IsKept managed.scanner (device_pass msc_scan managed none).0
  unfolding device_pass process_device_events plan_initial_state
  failed_pass-IsKept msc_scan managed inv = elim (Bool-cases managed.pending_initial_state) [
    | inl synced ↦ rw (synced, device_pass) (record { inv = inv; scans = refl })
    | inr later ↦ rw (later, device_pass) (record { inv = inv; scans = refl })
  ]

  pub passes-Inv :
      (msc_scan : ℕ) (batches : List (Option (List (Lookup × InputEvent))))
      (managed : ManagedDevice) (scanner : KeyScanner)
      → managed.scanner ≡ scanner
      → ReportsAll usage_of msc_scan scanner batches
      → EngineInv managed.engine
      → EngineInv (passes msc_scan managed batches).engine
  passes-Inv msc_scan [] managed scanner same reports inv = inv
  passes-Inv msc_scan (none ∷ batches) managed scanner same reports inv =
      let one = failed_pass-IsKept msc_scan managed inv in
      passes-Inv msc_scan batches (device_pass msc_scan managed none).0 scanner (one.scans ∙ same)
        reports one.inv
  passes-Inv msc_scan (some events ∷ batches) managed scanner same (now, later) inv =
      let one = device_pass-Inv msc_scan managed events scanner same now inv in
      passes-Inv msc_scan batches (device_pass msc_scan managed (some events)).0 _ one.scans later
        one.inv
