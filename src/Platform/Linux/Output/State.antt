-- ===== src/Platform/Linux/Output/State.antt =====
-- src/platform/linux/mapping/device.rs: the keys that are down on the virtual device.
use keymapper_rs.Prelude.{
  ℕ, ◌≡◌, refl, Bool, true, false, not, ◌&&◌, List, [], ◌∷◌, ◌++◌, arith, ◌==◌, if◌then◌else◌,
  contains, ℕ_discrete,
}
use keymapper_rs.Platform.Linux.Capture.{EventType, InputEvent}
use keymapper_rs.Platform.Linux.Output.{
  VirtualDevice, write, key_event, syn_report, write_key, release_all,
}

-- Whether the key `c` is down after an event, if it was down or not before.
abbrev pub after_event : InputEvent → ℕ → Bool → Bool
after_event event c before = elim event.event_type [
  | EventType.key ↦ if event.code == c then not (event.value == 0) else before
  | _ ↦ before
]

abbrev pub after_events : List InputEvent → ℕ → Bool → Bool
after_events [] c before = before
after_events (event ∷ events) c before = after_events events c (after_event event c before)

-- The key `c` is down on the device.
unfoldable pub is_down : VirtualDevice → ℕ → Bool
is_down d c = after_events d.written c false

-- No write will fail.
abbrev pub Works : VirtualDevice → Type 0
Works d = d.outcomes ≡ []

abbrev pub member : ℕ → List ℕ → Bool
member c codes = contains ℕ_discrete c codes

pub after_events-append :
    (es fs : List InputEvent) (c : ℕ) (before : Bool)
    → after_events (es ++ fs) c before ≡ after_events fs c (after_events es c before)
after_events-append [] fs c before = refl
after_events-append (e ∷ es) fs c before = after_events-append es fs c (after_event e c before)

-- What a write of the events does to the keys, on a device that works.
pub record IsWritten (d : VirtualDevice) (events : List InputEvent) (result : VirtualDevice × Bool)
    : Type 0 where
  pub succeeds : result.1 ≡ true
  pub works : Works (result.0)
  pub keys : (c : ℕ) → is_down (result.0) c ≡ after_events events c (is_down d c)

pub write-IsWritten :
    (d : VirtualDevice) (events : List InputEvent) → Works d → IsWritten d events (write d events)
unfolding write is_down
write-IsWritten d events works =
    rw (works, write)
      (record {
        succeeds = refl;
        works = refl;
        keys = λ c. after_events-append d.written events c false;
      })

pub write_key-IsWritten :
    (d : VirtualDevice) (code value : ℕ)
    → Works d
    → IsWritten d (key_event code value ∷ []) (write_key d code value)
unfolding write_key
write_key-IsWritten d code value works =
    let w = write-IsWritten d (key_event code value ∷ syn_report ∷ []) works in
    record { succeeds = w.succeeds; works = w.works; keys = w.keys }

pub is_down-release_all :
    (d : VirtualDevice) (codes : List ℕ)
    → Works d
    → Works (release_all d codes)
      × ((c : ℕ) → is_down (release_all d codes) c ≡ (not (member c codes) && is_down d c))
unfolding release_all contains ℕ_discrete
is_down-release_all d [] works = (works, λ c. refl)
is_down-release_all d (code ∷ codes) works =
    let w = write_key-IsWritten d code 0 works in
    let (works', keys) = is_down-release_all (write_key d code 0).0 codes w.works in
    (works', λ c. ground (arith, keys c, w.keys c))
