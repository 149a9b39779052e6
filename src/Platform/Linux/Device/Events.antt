-- ===== src/Platform/Linux/Device/Events.antt =====
-- src/platform/linux/mapping/device.rs: the actions that batches of events of a device queue.
use keymapper_rs.Prelude.{
  ℕ, ◌≡◌, refl, sym, ap, ◌∙◌, Bool, true, false, not, ◌&&◌, List, [], ◌∷◌, ◌++◌, some, ◌==◌,
  Bool-cases, Option-cases, inl, inr, All,
}
use keymapper_rs.Common.Str.{Str}
use keymapper_rs.Core.Lookup.{Lookup}
use keymapper_rs.Core.Engine.{MappingEngine, has_stale_key}
use keymapper_rs.Core.Emission.{emission_plan}
use keymapper_rs.Platform.Backend.{CapturedKey, OutputAction}
use keymapper_rs.Platform.Linux.Capture.{EventType, InputEvent, on_event}
use keymapper_rs.Platform.Linux.Device.{
  ManagedDevice, process_unknown, process_key, process_captured, process_events, carry_out,
}
use keymapper_rs.Platform.Linux.Device.Plain.{
  IsPlain, Silent, clear_stale_key-IsPlain, decide-IsPassed,
}

-- The key events, forwarded as they are.
abbrev pub forward_all : List (Lookup × InputEvent) → List OutputAction
forward_all [] = []
forward_all ((lookup, event) ∷ events) = elim event.event_type [
  | EventType.key ↦ OutputAction.forward event.code event.value ∷ forward_all events
  | _ ↦ forward_all events
]

-- What one key does to a plain engine.
record IsForwarded (key : CapturedKey) (actions : List OutputAction)
    (result : MappingEngine ℕ × List OutputAction) : Type 0 where
  forwarded : result.1 ≡ actions ++ OutputAction.forward key.native key.value ∷ []
  plain : IsPlain (result.0)

process_key-IsForwarded :
    (lookup : Lookup) (path : Str) (e : MappingEngine ℕ) (key : CapturedKey)
    (actions : List OutputAction)
    → Silent lookup
    → IsPlain e
    → IsForwarded key actions (process_key lookup path e key actions)
unfolding process_key process_unknown carry_out emission_plan has_stale_key
process_key-IsForwarded lookup path e key actions silent plain = elim (Option-cases key.usage) [
  | inr (usage, known) ↦
      let p =
        decide-IsPassed lookup e key.native usage (not (key.value == 0)) (some path) silent plain in
      rw (known, process_key, p.passed) (record { forwarded = refl; plain = p.plain })
  | inl unknown ↦
      rw (unknown, process_key, plain.no_stale key.native, and_false (key.value == 2))
        (record {
          forwarded = refl;
          plain = elim (Bool-cases (key.value == 0)) [
            | inl up ↦ rw up (clear_stale_key-IsPlain e key.native plain)
            | inr down ↦ rw down plain
          ];
        })
]
  where
    and_false : (b : Bool) → (b && false) ≡ false
    and_false true = refl
    and_false false = refl

append_assoc : (xs ys zs : List OutputAction) → (xs ++ ys) ++ zs ≡ xs ++ (ys ++ zs)
append_assoc [] ys zs = refl
append_assoc (x ∷ xs) ys zs = ap (λ r. x ∷ r) (append_assoc xs ys zs)

append_nil : (xs : List OutputAction) → xs ++ [] ≡ xs
append_nil [] = refl
append_nil (x ∷ xs) = ap (λ r. x ∷ r) (append_nil xs)

-- What a batch queues on a plain device.
pub record IsQueued (events : List (Lookup × InputEvent)) (actions : List OutputAction)
    (result : ManagedDevice × List OutputAction) : Type 0 where
  pub forwarded : result.1 ≡ actions ++ forward_all events
  pub plain : IsPlain (result.0).engine

process_captured-IsQueued :
    (msc_scan : ℕ) (lookup : Lookup) (managed : ManagedDevice) (event_type : EventType)
    (code value : ℕ) (actions : List OutputAction)
    → Silent lookup
    → IsPlain managed.engine
    → let event : InputEvent = record { event_type = event_type; code = code; value = value } in
      IsQueued
        ((lookup, event) ∷ [])
        actions
        (process_captured lookup managed (on_event msc_scan managed.scanner event) actions)
unfolding process_captured on_event
process_captured-IsQueued msc_scan lookup managed EventType.key code value actions silent plain =
    let p = process_key-IsForwarded lookup managed.path managed.engine _ actions silent plain in
    record { forwarded = p.forwarded; plain = p.plain }
process_captured-IsQueued msc_scan lookup managed EventType.misc code value actions silent plain =
    elim (Bool-cases (code == msc_scan)) [
      | inl scan ↦
          rw (scan, on_event) (record { forwarded = sym (append_nil actions); plain = plain })
      | inr other ↦
          rw (other, on_event) (record { forwarded = sym (append_nil actions); plain = plain })
    ]
process_captured-IsQueued msc_scan lookup managed EventType.synchronization code value actions
      silent plain =
    record { forwarded = sym (append_nil actions); plain = plain }
process_captured-IsQueued msc_scan lookup managed EventType.other code value actions silent plain =
    record { forwarded = sym (append_nil actions); plain = plain }

forward_all_cons :
    (event : Lookup × InputEvent) (events : List (Lookup × InputEvent))
    → forward_all (event ∷ events) ≡ forward_all (event ∷ []) ++ forward_all events
forward_all_cons (lookup, event) events =
    elim event.event_type
      as (λ t.
        (elim t [
          | EventType.key ↦ OutputAction.forward event.code event.value ∷ forward_all events
          | _ ↦ forward_all events
        ])
        ≡ (elim t [ EventType.key ↦ OutputAction.forward event.code event.value ∷ [] | _ ↦ [] ])
          ++ forward_all events) [ EventType.key ↦ refl | _ ↦ refl ]

pub process_events-IsQueued :
    (msc_scan : ℕ) (managed : ManagedDevice) (events : List (Lookup × InputEvent))
    (actions : List OutputAction)
    → All (λ e. Silent e.0) events
    → IsPlain managed.engine
    → IsQueued events actions (process_events msc_scan managed events actions)
unfolding process_events
process_events-IsQueued msc_scan managed [] actions silent plain = record {
  forwarded = sym (append_nil actions);
  plain = plain;
}
process_events-IsQueued msc_scan managed ((lookup, event) ∷ events) actions (s, silent) plain =
    let one =
      process_captured-IsQueued msc_scan lookup managed event.event_type event.code event.value
        actions s plain in
    let next = process_captured lookup managed (on_event msc_scan managed.scanner event) actions in
    let rest = process_events-IsQueued msc_scan next.0 events next.1 silent one.plain in
    record {
      forwarded =
          rest.forwarded
          ∙ ap (λ a. a ++ forward_all events) one.forwarded
          ∙ append_assoc actions (forward_all ((lookup, event) ∷ [])) (forward_all events)
          ∙ ap (λ a. actions ++ a) (sym (forward_all_cons (lookup, event) events));
      plain = rest.plain;
    }
