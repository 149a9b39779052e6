-- ===== src/Platform/Linux/Device.antt =====
-- src/platform/linux/mapping/device.rs: a managed keyboard and the processing of its events. The
-- virtual device is in Output; the log lines are left out.
pub mod Bitmap
pub mod Startup
pub mod Plain
pub mod Events
pub mod Written
pub mod Lifecycle
pub mod Held
pub mod Passes
pub mod TakeOver
use keymapper_rs.Prelude.{
  ℕ, zero, suc, ◌+◌, ◌*◌, ◌%◌, ◌^◌, Bool, true, false, not, ◌&&◌, List, [], ◌∷◌, ◌++◌, Option, none,
  some, bit_and, ◌==◌, ltb, if◌then◌else◌, ℕ_discrete,
}
use keymapper_rs.Common.Str.{Str}
use keymapper_rs.Common.HidUsage.{HidUsage, hid_usage_to_modifier_bit}
use keymapper_rs.Core.Lookup.{Lookup}
use keymapper_rs.Core.Engine.{
  MappingEngine, Decision, decide, note_held_key, note_stale_key, unnote_held_key, clear_stale_key,
  has_stale_key, held_modifier_forwarded,
}
use keymapper_rs.Core.Emission.{
  EmitAction, InputFate, EmissionPlan, ConsumedReleaseFate, emission_plan,
}
use keymapper_rs.Platform.Backend.{CapturedKey, OutputAction}
use keymapper_rs.Platform.Linux.Capture.{EventType, InputEvent, KeyScanner, on_event}
use keymapper_rs.Platform.Linux.Keycode.Usage.{keycode_to_hid_usage}
use keymapper_rs.Platform.Linux.Output.{is_modifier}

-- The evdev handle is left out: what it delivers is given to each operation.
pub record ManagedDevice : Type 0 where
  pub path : Str
  pub engine : MappingEngine ℕ
  pub scanner : KeyScanner
  pub pending_initial_state : Bool
  pub pending_held_modifiers : List ℕ

-- `LinuxEmitter::CONSUMED_RELEASE`.
abbrev pub consumed_release : ConsumedReleaseFate
consumed_release = ConsumedReleaseFate.swallow

unfoldable pub queue_plan_actions : List OutputAction → List EmitAction → List OutputAction
queue_plan_actions actions [] = actions
queue_plan_actions actions (EmitAction.release_consumed consumed ∷ plan) =
    queue_plan_actions (actions ++ OutputAction.release_consumed consumed ∷ []) plan
queue_plan_actions actions (EmitAction.tap native_key ∷ plan) =
    queue_plan_actions (actions ++ OutputAction.tap native_key ∷ []) plan
queue_plan_actions actions (EmitAction.hold native_key ∷ plan) =
    queue_plan_actions (actions ++ OutputAction.hold native_key ∷ []) plan

-- A key without an identity.
unfoldable pub process_unknown :
    MappingEngine ℕ → ℕ → ℕ → List OutputAction → MappingEngine ℕ × List OutputAction
unfolding has_stale_key clear_stale_key
process_unknown engine code value actions =
    if value == 2 && has_stale_key ℕ_discrete engine code then (engine, actions) else (
      if value == 0 then clear_stale_key ℕ_discrete engine code else engine,
      actions ++ OutputAction.forward code value ∷ [],
    )

-- The `match` on the fate of the input.
unfoldable pub carry_out : EmissionPlan → ℕ → ℕ → List OutputAction → List OutputAction
unfolding queue_plan_actions
carry_out plan code value actions = elim plan.input [
  | InputFate.forward ↦ actions ++ OutputAction.forward code value ∷ []
  | InputFate.swallow ↦ queue_plan_actions actions plan.actions
  | InputFate.silent ↦ queue_plan_actions actions plan.actions
]

-- A key of the device at `path`, with or without an identity.
unfoldable pub process_key :
    Lookup
    → Str
    → MappingEngine ℕ
    → CapturedKey
    → List OutputAction
    → MappingEngine ℕ × List OutputAction
process_key lookup path engine key actions = elim key.usage [
  | none ↦ process_unknown engine key.native key.value actions
  | some usage ↦
      let decided =
        decide ℕ_discrete lookup engine key.native usage (not (key.value == 0)) (some path) true in
      (decided.0, carry_out (emission_plan decided.1 consumed_release) key.native key.value actions)
]

unfoldable pub process_captured :
    Lookup
    → ManagedDevice
    → KeyScanner × Option CapturedKey
    → List OutputAction
    → ManagedDevice × List OutputAction
process_captured lookup managed (scanner, none) actions =
    (record managed { scanner = scanner }, actions)
process_captured lookup managed (scanner, some key) actions =
    let processed = process_key lookup managed.path managed.engine key actions in
    (record managed { scanner = scanner; engine = processed.0 }, processed.1)

-- The loop over the events, each with the shared lookup as it is then.
unfoldable pub process_events :
    ℕ
    → ManagedDevice
    → List (Lookup × InputEvent)
    → List OutputAction
    → ManagedDevice × List OutputAction
process_events msc_scan managed [] actions = (managed, actions)
process_events msc_scan managed ((lookup, event) ∷ events) actions =
    let next = process_captured lookup managed (on_event msc_scan managed.scanner event) actions in
    process_events msc_scan next.0 events next.1

-- What a read of the device gives; `none` is an error of any kind.
unfoldable pub process_device_events :
    ℕ → ManagedDevice → Option (List (Lookup × InputEvent)) → ManagedDevice × List OutputAction
process_device_events msc_scan managed none = (managed, [])
process_device_events msc_scan managed (some events) = process_events msc_scan managed events []
