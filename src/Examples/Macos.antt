-- ===== src/Examples/Macos.antt =====
-- The rate limiter of the macOS emitter.
use keymapper_rs.Prelude.{ℕ, ◌-◌, ◌≤◌, ◌≡◌, refl, List, [], ◌∷◌, arith}
use keymapper_rs.Platform.Macos.RateLimit.{new_limiter, retain_since, check_and_record}
use keymapper_rs.Platform.Macos.RateLimit.Window.{
  count_since, allowed, last_call, allowed-new_limiter,
}

-- Two frames within 50: the third of four is refused, and the fourth is late enough.
abbrev times : List ℕ
times = 100 ∷ 110 ∷ 120 ∷ 155 ∷ []

third_refused : allowed (new_limiter 50 2) times [] ≡ 155 ∷ 110 ∷ 100 ∷ []
unfolding new_limiter check_and_record retain_since
third_refused = refl

allowed-new_limiter_example :
    count_since (last_call 100 times - 50) (allowed (new_limiter 50 2) times []) ≤ 2
allowed-new_limiter_example =
    allowed-new_limiter 50 2 100 times
      (omega arith, (omega arith, (omega arith, (omega arith, omega arith))))
