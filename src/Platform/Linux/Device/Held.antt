-- ===== src/Platform/Linux/Device/Held.antt =====
-- src/platform/linux/mapping/device.rs: the invariant of the engine from the grab of a keyboard on.
use keymapper_rs.Prelude.{
  ℕ, ◌≤◌, ◌≡◌, ◌≢◌, ◌⊎◌, ap, inl, inr, Bool, true, false, List, [], ◌∷◌, Option, none, some, arith,
  contains, insert, contains-insert, ℕ_discrete, ◌==◌, Bool-cases, Option-cases,
}
use keymapper_rs.Common.HidUsage.{HidUsage, hid_usage_to_modifier_bit}
use keymapper_rs.Core.Tracker.{record_forwarded_down}
use keymapper_rs.Core.Engine.{MappingEngine, note_held, note_held_key, note_stale_key, mark_stale}
use keymapper_rs.Core.Engine.Grab.{
  IsStarted, note_held_key-IsStarted, note_stale_key-IsStarted, clear_stale_key-IsStarted,
  unnote_held_key-IsStarted,
}
use keymapper_rs.Platform.Linux.Capture.{EventType, InputEvent}
use keymapper_rs.Platform.Linux.Keycode.Usage.{keycode_to_hid_usage}
use keymapper_rs.Platform.Linux.Device.{ManagedDevice}
use keymapper_rs.Platform.Linux.Device.Startup.{
  note_key, note_held_keys, unnote_key, unnote_natively_released, position, release_pending,
  release_batch, Read, window_loop,
}

-- No code stands twice in the list.
abbrev pub NoDuplicates : List ℕ → Type 0
NoDuplicates [] = 0 ≤ 0
NoDuplicates (code ∷ codes) = (contains ℕ_discrete code codes ≡ false) × NoDuplicates codes

module _ (usage_of : ℕ → HidUsage)
    (reports : (code : ℕ) (u : HidUsage)
      → keycode_to_hid_usage code ≡ some u
      → u ≡ usage_of code) where
  abbrev pub Started : MappingEngine ℕ → Type 0
  Started e = IsStarted ℕ_discrete usage_of e

  pressed_by_note :
      (e : MappingEngine ℕ) (code c : ℕ) (o : Option HidUsage)
      → c ≢ code
      → contains ℕ_discrete c e.tracker.pressed_keys ≡ false
      → contains ℕ_discrete c (note_key e code o).tracker.pressed_keys ≡ false
  unfolding note_key note_stale_key mark_stale note_held_key note_held record_forwarded_down
  pressed_by_note e code c none ne up = up
  pressed_by_note e code c (some u) ne up = go (hid_usage_to_modifier_bit u)
    where
      still_up : contains ℕ_discrete c (insert ℕ_discrete code e.tracker.pressed_keys) ≡ false
      still_up = ground (arith, contains-insert ℕ_discrete c code e.tracker.pressed_keys, up, ne)

      go :
          (b : Option ℕ)
          → contains ℕ_discrete c
              (note_held ℕ_discrete
                (record e {
                  tracker = record (e.tracker) {
                    pressed_keys = insert ℕ_discrete code e.tracker.pressed_keys;
                  };
                })
                code
                b).tracker.pressed_keys
            ≡ false
      go none = still_up
      go (some bit) = still_up

  note_key-Started :
      (e : MappingEngine ℕ) (code : ℕ)
      → contains ℕ_discrete code e.tracker.pressed_keys ≡ false
      → Started e
      → Started (note_key e code (keycode_to_hid_usage code))
  unfolding note_key
  note_key-Started e code up s = elim (Option-cases (keycode_to_hid_usage code)) [
    | inl unknown ↦ rw (unknown, note_key) (note_stale_key-IsStarted ℕ_discrete usage_of e code s)
    | inr (u, known) ↦
        rw (known, note_key, reports code u known)
          (note_held_key-IsStarted ℕ_discrete usage_of e code up s)
  ]

  pub note_held_keys-Started :
      (e : MappingEngine ℕ) (held : List ℕ)
      → NoDuplicates held
      → ((c : ℕ)
          → contains ℕ_discrete c held ≡ true
          → contains ℕ_discrete c e.tracker.pressed_keys ≡ false)
      → Started e
      → Started (note_held_keys e held).0
  unfolding note_held_keys contains ℕ_discrete
  note_held_keys-Started e [] distinct up s = s
  note_held_keys-Started e (code ∷ held) (once, distinct) up s =
      note_held_keys-Started (note_key e code (keycode_to_hid_usage code)) held distinct
        (λ c in_held.
          pressed_by_note e code c (keycode_to_hid_usage code)
            (λ same_code. cc (in_held, once, ap (λ x. contains ℕ_discrete x held) same_code))
            (up c (later c in_held)))
        (note_key-Started e code (up code here) s)
    where
      here : contains ℕ_discrete code (code ∷ held) ≡ true
      here = ground arith

      later :
          (c : ℕ) → contains ℕ_discrete c held ≡ true → contains ℕ_discrete c (code ∷ held) ≡ true
      later c h = ground (arith, h)

  release_pending-Started :
      (managed : ManagedDevice) (pending : List ℕ) (event : InputEvent)
      → Started managed.engine
      → Started (release_pending managed pending event).0.engine
  unfolding release_pending unnote_natively_released unnote_key
  release_pending-Started managed pending event s =
      go event.event_type (Bool-cases (event.value == 0))
        (Option-cases (position event.code pending))
    where
      unnoted : Started (unnote_natively_released managed event.code).engine
      unnoted = elim (Option-cases (keycode_to_hid_usage event.code)) [
        | inl unknown ↦
            rw (unknown, unnote_natively_released, unnote_key)
              (clear_stale_key-IsStarted ℕ_discrete usage_of managed.engine event.code s)
        | inr (u, known) ↦
            rw (known, unnote_natively_released, unnote_key, reports event.code u known)
              (unnote_held_key-IsStarted ℕ_discrete usage_of managed.engine event.code s)
      ]

      go :
          (t : EventType)
          → ((event.value == 0) ≡ true) ⊎ ((event.value == 0) ≡ false)
          → (position event.code pending ≡ none)
            ⊎ ((pos : ℕ) × (position event.code pending ≡ some pos))
          → Started
              (release_pending managed pending
                (record { event_type = t; code = event.code; value = event.value })).0.engine
      go EventType.key (inl up) (inl absent) = rw (up, absent, release_pending) s
      go EventType.key (inl up) (inr (pos, found)) = rw (up, found, release_pending) unnoted
      go EventType.key (inr down) _ = rw (down, release_pending) s
      go EventType.misc _ _ = s
      go EventType.synchronization _ _ = s
      go EventType.other _ _ = s

  release_batch-Started :
      (events : List InputEvent) (managed : ManagedDevice) (pending : List ℕ)
      → Started managed.engine
      → Started (release_batch managed pending events).0.engine
  unfolding release_batch
  release_batch-Started [] managed pending s = s
  release_batch-Started (event ∷ events) managed pending s =
      let next = release_pending managed pending event in
      release_batch-Started events next.0 next.1 (release_pending-Started managed pending event s)

  pub window_loop-Started :
      (reads : List Read) (has_held_keys : Bool) (managed : ManagedDevice) (pending : List ℕ)
      → Started managed.engine
      → Started (window_loop has_held_keys managed pending reads).0.engine
  unfolding window_loop
  window_loop-Started [] has_held_keys managed [] s = s
  window_loop-Started [] has_held_keys managed (code ∷ pending) s = s
  window_loop-Started (read ∷ reads) true managed [] s = s
  window_loop-Started (Read.again ∷ reads) false managed [] s =
      window_loop-Started reads false managed [] s
  window_loop-Started (Read.batch events ∷ reads) false managed [] s =
      let next = release_batch managed [] events in
      window_loop-Started reads false next.0 next.1 (release_batch-Started events managed [] s)
  window_loop-Started (Read.failed ∷ reads) false managed [] s = s
  window_loop-Started (Read.again ∷ reads) h managed (code ∷ pending) s =
      window_loop-Started reads h managed (code ∷ pending) s
  window_loop-Started (Read.batch events ∷ reads) h managed (code ∷ pending) s =
      let next = release_batch managed (code ∷ pending) events in
      window_loop-Started reads h next.0 next.1
        (release_batch-Started events managed (code ∷ pending) s)
  window_loop-Started (Read.failed ∷ reads) h managed (code ∷ pending) s = s
