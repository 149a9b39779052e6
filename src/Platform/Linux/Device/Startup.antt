-- ===== src/Platform/Linux/Device/Startup.antt =====
-- src/platform/linux/mapping/device.rs: taking over a keyboard on which keys are held.
use keymapper_rs.Prelude.{
  ℕ, zero, suc, Bool, true, false, ◌&&◌, List, [], ◌∷◌, Option, none, some, ◌==◌, if◌then◌else◌,
  ℕ_discrete,
}
use keymapper_rs.Common.HidUsage.{HidUsage}
use keymapper_rs.Core.Engine.{
  MappingEngine, note_held_key, note_stale_key, unnote_held_key, clear_stale_key,
  held_modifier_forwarded,
}
use keymapper_rs.Platform.Backend.{OutputAction}
use keymapper_rs.Platform.Linux.Capture.{EventType, InputEvent}
use keymapper_rs.Platform.Linux.Keycode.Usage.{keycode_to_hid_usage}
use keymapper_rs.Platform.Linux.Output.{is_modifier}
use keymapper_rs.Platform.Linux.Device.{ManagedDevice}

unfoldable pub note_key : MappingEngine ℕ → ℕ → Option HidUsage → MappingEngine ℕ
note_key engine code none = note_stale_key ℕ_discrete engine code
note_key engine code (some usage) = note_held_key ℕ_discrete engine code usage

-- The engine, and the codes of the held modifiers.
unfoldable pub note_held_keys : MappingEngine ℕ → List ℕ → MappingEngine ℕ × List ℕ
note_held_keys engine [] = (engine, [])
note_held_keys engine (code ∷ held) =
    let rest = note_held_keys (note_key engine code (keycode_to_hid_usage code)) held in
    (rest.0, if is_modifier (keycode_to_hid_usage code) then code ∷ rest.1 else rest.1)

-- The key state of the kernel, or nothing if it cannot be read.
unfoldable pub capture_held_keys : ManagedDevice → Option (List ℕ) → ManagedDevice × List ℕ
capture_held_keys managed none = (managed, [])
capture_held_keys managed (some held) =
    let noted = note_held_keys managed.engine held in
    (record managed { engine = noted.0; pending_held_modifiers = noted.1 }, held)

unfoldable pub unnote_key : MappingEngine ℕ → ℕ → Option HidUsage → MappingEngine ℕ
unnote_key engine code none = clear_stale_key ℕ_discrete engine code
unnote_key engine code (some usage) = unnote_held_key ℕ_discrete engine code usage

unfoldable pub unnote_natively_released : ManagedDevice → ℕ → ManagedDevice
unnote_natively_released managed code = record managed {
  engine = unnote_key managed.engine code (keycode_to_hid_usage code);
}

-- `iter().position(|&code| code == …)`.
unfoldable pub position : ℕ → List ℕ → Option ℕ
position code [] = none
position code (x ∷ xs) =
    if x == code
    then some 0
    else elim (position code xs) [ none ↦ none | some pos ↦ some (suc pos) ]

-- The last element of `x ∷ xs`, before the others.
unfoldable pub last_first : ℕ → List ℕ → List ℕ
last_first x [] = x ∷ []
last_first x (y ∷ ys) = elim (last_first y ys) [ [] ↦ [] | z ∷ zs ↦ z ∷ x ∷ zs ]

-- `Vec::swap_remove`: the last element takes the place of the removed one.
unfoldable pub swap_remove : ℕ → List ℕ → List ℕ
unfolding last_first
swap_remove pos [] = []
swap_remove zero (x ∷ []) = []
swap_remove zero (x ∷ y ∷ ys) = last_first y ys
swap_remove (suc pos) (x ∷ xs) = x ∷ swap_remove pos xs

-- One event within the window: the release of a pending key.
unfoldable pub release_pending : ManagedDevice → List ℕ → InputEvent → ManagedDevice × List ℕ
unfolding position swap_remove unnote_natively_released
release_pending managed pending event = elim event.event_type [
  | EventType.key ↦
      if event.value == 0
      then elim (position event.code pending) [
        | none ↦ (managed, pending)
        | some pos ↦ (unnote_natively_released managed event.code, swap_remove pos pending)
      ]
      else (managed, pending)
  | _ ↦ (managed, pending)
]

unfoldable pub release_batch : ManagedDevice → List ℕ → List InputEvent → ManagedDevice × List ℕ
unfolding release_pending
release_batch managed pending [] = (managed, pending)
release_batch managed pending (event ∷ events) =
    let next = release_pending managed pending event in release_batch next.0 next.1 events

-- What a pass of the loop of the window meets: a read that would block or was interrupted, a batch,
-- or an error.
pub data Read : Type 0 where
  again : Read
  batch : List InputEvent → Read
  failed : Read

-- The loop of the window. The list has the reads up to the deadline.
unfoldable pub window_loop : Bool → ManagedDevice → List ℕ → List Read → ManagedDevice × List ℕ
unfolding release_batch
window_loop has_held_keys managed pending [] = (managed, pending)
window_loop has_held_keys managed [] (read ∷ reads) =
    let rest = window_loop has_held_keys managed [] reads in
    let batch_rest : List InputEvent → ManagedDevice × List ℕ = λ events.
      let next = release_batch managed [] events in window_loop has_held_keys next.0 next.1 reads in
    if has_held_keys
    then (managed, [])
    else elim read [ again ↦ rest | batch events ↦ batch_rest events | failed ↦ (managed, []) ]
window_loop has_held_keys managed (code ∷ pending) (read ∷ reads) = elim read [
  | again ↦ window_loop has_held_keys managed (code ∷ pending) reads
  | batch events ↦
      let next = release_batch managed (code ∷ pending) events in
      window_loop has_held_keys next.0 next.1 reads
  | failed ↦ (managed, code ∷ pending)
]

-- `ungrabbed` is whether the grab could be released. The codes are those still pending.
unfoldable pub native_release_window :
    ManagedDevice → List ℕ → Bool → Bool → List Read → ManagedDevice × List ℕ
unfolding window_loop
native_release_window managed [] drain_found_events ungrabbed reads =
    if drain_found_events && ungrabbed then window_loop false managed [] reads else (managed, [])
native_release_window managed (code ∷ held) drain_found_events ungrabbed reads =
    if ungrabbed then window_loop true managed (code ∷ held) reads else (managed, code ∷ held)

-- A held modifier that the engine still has as forwarded.
unfoldable pub is_still_held : MappingEngine ℕ → Option HidUsage → Bool
is_still_held engine none = false
is_still_held engine (some usage) = held_modifier_forwarded engine usage

unfoldable pub plan_modifiers : MappingEngine ℕ → List ℕ → List OutputAction
unfolding is_still_held
plan_modifiers engine [] = []
plan_modifiers engine (code ∷ codes) =
    let rest = plan_modifiers engine codes in
    if is_still_held engine (keycode_to_hid_usage code)
    then OutputAction.forward code 1 ∷ rest
    else rest

unfoldable pub plan_initial_state : ManagedDevice → ManagedDevice × List OutputAction
unfolding plan_modifiers
plan_initial_state managed = (
  record managed { pending_held_modifiers = [] },
  plan_modifiers managed.engine managed.pending_held_modifiers,
)
