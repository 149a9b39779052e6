-- ===== src/Platform/Windows/Hook/Budget.antt =====
-- src/platform/windows/mapping.rs: the sleeps of one callback of the hook.
use keymapper_rs.Prelude.{
  ℕ, ◌+◌, ◌-◌, ◌<◌, ◌≤◌, ◌≡◌, ◌⊎◌, inl, inr, List, [], ◌∷◌, Option, none, some, arith, ltb,
  Bool-cases, All,
}
use keymapper_rs.Platform.Windows.Hook.{hook_sleep_budget, bounded_sleep, hook_sleep}

-- What a callback does until its next sleep: it works for some time, and then asks for a duration.
-- If it sleeps, the system lets it sleep longer by the overshoot.
pub record Pause : Type 0 where
  pub work : ℕ
  pub duration : ℕ
  pub overshoot : ℕ

-- When a pause asks for its sleep, what it asks for, and what is passed to `thread::sleep`, if it is
-- called.
pub record Sleep : Type 0 where
  pub at : ℕ
  pub duration : ℕ
  pub sleep_for : Option ℕ

-- The sleeps of a callback.
abbrev pub callback : (start : ℕ) (now : ℕ) → List Pause → List Sleep
callback start now [] = []
callback start now (pause ∷ pauses) =
    let before = now + pause.work in
    let after = hook_sleep (some start) before pause.duration pause.overshoot in
    record {
      at = before;
      duration = pause.duration;
      sleep_for = bounded_sleep (some start) before pause.duration;
    }
    ∷ callback start after pauses

abbrev pub length_of : Option ℕ → ℕ
length_of none = 0
length_of (some sleep_for) = sleep_for

-- The sum of the sleeps that are asked of the system.
abbrev pub total : List Sleep → ℕ
total [] = 0
total (sleep ∷ sleeps) = length_of sleep.sleep_for + total sleeps

-- No sleep exactly when the budget is over; else as long as is asked for, or up to its end.
abbrev pub IsBounded : (elapsed : ℕ) (duration : ℕ) → Option ℕ → Type 0
IsBounded elapsed duration none = hook_sleep_budget ≤ elapsed
IsBounded elapsed duration (some sleep_for) =
    (elapsed < hook_sleep_budget)
    × (elapsed + sleep_for ≤ hook_sleep_budget)
    × (sleep_for ≤ duration)
    × ((sleep_for ≡ duration) ⊎ (elapsed + sleep_for ≡ hook_sleep_budget))

bounded_sleep-IsBounded :
    (start now duration : ℕ)
    → IsBounded (now - start) duration (bounded_sleep (some start) now duration)
unfolding bounded_sleep
bounded_sleep-IsBounded start now duration =
    elim (Bool-cases (ltb (now - start) hook_sleep_budget)) [
      | inl within ↦ rw (within, bounded_sleep) (ground (arith, within))
      | inr over ↦ rw (over, bounded_sleep) (ground (arith, over))
    ]

-- A sleep takes what it is asked to from what is left of the budget.
sleep_within :
    (start now duration overshoot : ℕ)
    → let after = hook_sleep (some start) now duration overshoot in
      let asked = length_of (bounded_sleep (some start) now duration) in
      (now + asked ≤ after) × (asked ≤ hook_sleep_budget - (now - start))
unfolding hook_sleep bounded_sleep
sleep_within start now duration overshoot = ground arith

callback_within :
    (start now : ℕ) (pauses : List Pause)
    → start ≤ now
    → All
        (λ sleep. IsBounded (sleep.at - start) sleep.duration sleep.sleep_for)
        (callback start now pauses)
      × (total (callback start now pauses) ≤ hook_sleep_budget - (now - start))
callback_within start now [] begun = (tt, omega arith)
callback_within start now (pause ∷ pauses) begun =
    let before = now + pause.work in
    let after = hook_sleep (some start) before pause.duration pause.overshoot in
    let (later, bound) = sleep_within start before pause.duration pause.overshoot in
    let (each, slept) = callback_within start after pauses (omega (arith, begun, later)) in
    (
      (bounded_sleep-IsBounded start before pause.duration, each),
      omega (arith, slept, bound, later, begun),
    )

-- Whatever a callback of the hook works and asks for, and however much longer than asked for its
-- sleeps last: each of its sleeps begins before the budget is over and is not asked to go beyond it,
-- is as long as the callback asks for unless it goes to the end of the budget, and is left out only
-- when the budget is over; and all the sleeps asked of the system are together at most the budget.
pub callback-hook_sleep :
    (start : ℕ) (pauses : List Pause)
    → All
        (λ sleep. IsBounded (sleep.at - start) sleep.duration sleep.sleep_for)
        (callback start start pauses)
      × (total (callback start start pauses) ≤ hook_sleep_budget)
callback-hook_sleep start pauses =
    let (each, slept) = callback_within start start pauses (omega arith) in
    (each, omega (arith, slept))
