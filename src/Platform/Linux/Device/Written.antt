-- ===== src/Platform/Linux/Device/Written.antt =====
-- src/platform/linux/mapping/device.rs: what batches of events of a device make be written to the
-- virtual device.
use keymapper_rs.Prelude.{
  ℕ, ◌≡◌, refl, sym, ap, ◌∙◌, List, [], ◌∷◌, ◌++◌, some, ◌==◌, Bool-cases, inl, inr, All,
  if◌then◌else◌,
}
use keymapper_rs.Core.Lookup.{Lookup}
use keymapper_rs.Platform.Backend.{OutputAction}
use keymapper_rs.Platform.Linux.Capture.{EventType, InputEvent}
use keymapper_rs.Platform.Linux.Output.{
  VirtualDevice, key_event, syn_report, write, write_key, forward_key_event, emit, emit_actions,
}
use keymapper_rs.Platform.Linux.Output.State.{Works, member}
use keymapper_rs.Platform.Linux.Output.Masks.{codes, is_modifier-member}
use keymapper_rs.Platform.Linux.Device.{ManagedDevice, process_device_events}
use keymapper_rs.Platform.Linux.Device.Plain.{IsPlain, Silent}
use keymapper_rs.Platform.Linux.Device.Events.{forward_all, process_events-IsQueued}

-- A key event as it is, and a report after it; for the repeat of a key other than the eight modifiers
-- a press and a release, and for that of a modifier nothing.
abbrev pub written_key : (code value : ℕ) → List InputEvent
written_key code value =
    if value == 2
    then (if member code codes then [] else key_event code 1 ∷ key_event code 0 ∷ syn_report ∷ [])
    else key_event code value ∷ syn_report ∷ []

-- The key events, one after the other.
abbrev pub written_for : List (Lookup × InputEvent) → List InputEvent
written_for [] = []
written_for ((lookup, event) ∷ events) = elim event.event_type [
  | EventType.key ↦ written_key event.code event.value ++ written_for events
  | _ ↦ written_for events
]

-- What a batch of events of a device does, when its actions are emitted on the virtual device `d`.
pub record IsTransparent (events : List (Lookup × InputEvent)) (d : VirtualDevice)
    (result : ManagedDevice × List OutputAction) : Type 0 where
  pub written : (emit_actions d (result.1)).written ≡ d.written ++ written_for events
  pub works : Works (emit_actions d (result.1))
  pub plain : IsPlain (result.0).engine

-- What is written by an emission.
record IsAppended (d : VirtualDevice) (events : List InputEvent) (d' : VirtualDevice) : Type 0 where
  written : d'.written ≡ d.written ++ events
  works : Works d'

append_nil : (xs : List InputEvent) → xs ++ [] ≡ xs
append_nil [] = refl
append_nil (x ∷ xs) = ap (λ r. x ∷ r) (append_nil xs)

append_assoc : (xs ys zs : List InputEvent) → (xs ++ ys) ++ zs ≡ xs ++ (ys ++ zs)
append_assoc [] ys zs = refl
append_assoc (x ∷ xs) ys zs = ap (λ r. x ∷ r) (append_assoc xs ys zs)

write-IsAppended :
    (d : VirtualDevice) (events : List InputEvent)
    → Works d
    → IsAppended d events (write d events).0
unfolding write
write-IsAppended d events works = rw (works, write) (record { written = refl; works = refl })

forward_key_event-IsAppended :
    (d : VirtualDevice) (code value : ℕ)
    → Works d
    → IsAppended d (written_key code value) (forward_key_event d code value)
unfolding forward_key_event write_key
forward_key_event-IsAppended d code value works = elim (Bool-cases (value == 2)) [
  | inl again ↦ elim (Bool-cases (member code codes)) [
    | inl modifier ↦
        rw (again, is_modifier-member code, modifier)
          (record { written = sym (append_nil d.written); works = works })
    | inr other ↦ rw (again, is_modifier-member code, other) (write-IsAppended d _ works)
  ]
  | inr once ↦ rw once (write-IsAppended d _ works)
]

IsAppended-append :
    {d d' d'' : VirtualDevice} {xs ys : List InputEvent}
    → IsAppended d xs d'
    → IsAppended d' ys d''
    → IsAppended d (xs ++ ys) d''
IsAppended-append {d} {d'} {d''} {xs} {ys} one rest = record {
  written = rest.written ∙ ap (λ w. w ++ ys) one.written ∙ append_assoc d.written xs ys;
  works = rest.works;
}

emit_actions-forward_all :
    (d : VirtualDevice) (events : List (Lookup × InputEvent))
    → Works d
    → IsAppended d (written_for events) (emit_actions d (forward_all events))
unfolding emit_actions emit
emit_actions-forward_all d [] works = record { written = sym (append_nil d.written); works = works }
emit_actions-forward_all d ((lookup, event) ∷ events) works =
    elim event.event_type
      as (λ t.
        IsAppended d
          (elim t [
            | EventType.key ↦ written_key event.code event.value ++ written_for events
            | _ ↦ written_for events
          ])
          (emit_actions d (elim t [
            | EventType.key ↦ OutputAction.forward event.code event.value ∷ forward_all events
            | _ ↦ forward_all events
          ]))) [
            | EventType.key ↦
                let one = forward_key_event-IsAppended d event.code event.value works in
                IsAppended-append one (
                  emit_actions-forward_all (forward_key_event d event.code event.value) events
                    one.works)
            | _ ↦ emit_actions-forward_all d events works
          ]

-- Without rules a keyboard writes what it reads, but for the repeats. If no lookup has a rule, no
-- key is swallowed or stale, no modifier is consumed and the virtual device works, then emitting what
-- a batch of events queues writes exactly its key events, in their order, whether the keys are known
-- or not: a press or release once and with its value, the repeat of one of the eight modifiers not at
-- all, and the repeat of another key as a press and a release. The engine stays so.
pub process_device_events-IsTransparent :
    (msc_scan : ℕ) (managed : ManagedDevice) (events : List (Lookup × InputEvent))
    (d : VirtualDevice)
    → All (λ e. Silent e.0) events
    → IsPlain managed.engine
    → Works d
    → IsTransparent events d (process_device_events msc_scan managed (some events))
unfolding process_device_events
process_device_events-IsTransparent msc_scan managed events d silent plain works =
    let queued = process_events-IsQueued msc_scan managed events [] silent plain in
    let emitted = emit_actions-forward_all d events works in
    record {
      written = ap (λ a. (emit_actions d a).written) queued.forwarded ∙ emitted.written;
      works = ap (λ a. (emit_actions d a).outcomes) queued.forwarded ∙ emitted.works;
      plain = queued.plain;
    }
