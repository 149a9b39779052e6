-- ===== src/Platform/Macos/RateLimit/Window.antt =====
-- src/platform/macos/ipc_server.rs, `FrameRateLimiter`: the frames allowed within a window.
use keymapper_rs.Prelude.{
  ℕ, ◌+◌, ◌-◌, ◌≤◌, ◌≡◌, refl, not, List, [], ◌∷◌, ◌++◌, arith, ltb, length, length-append,
  Bool-cases, inl, inr, if◌then◌else◌,
}
use keymapper_rs.Platform.Macos.RateLimit.{
  FrameRateLimiter, new_limiter, retain_since, check_and_record,
}

-- How many of the instants are not before `c`.
abbrev pub count_since : ℕ → List ℕ → ℕ
count_since c [] = 0
count_since c (ts ∷ frames) =
    if not (ltb ts c) then 1 + count_since c frames else count_since c frames

-- The instants of the allowed frames, the latest first, after calls at the given instants.
abbrev pub allowed : FrameRateLimiter → List ℕ → List ℕ → List ℕ
allowed limiter [] before = before
allowed limiter (now ∷ times) before =
    let checked = check_and_record limiter now in
    allowed checked.0 times (if checked.1 then now ∷ before else before)

-- The clock never goes back.
abbrev pub Ascending : ℕ → List ℕ → Type 0
Ascending last [] = last ≤ last
Ascending last (now ∷ times) = (last ≤ now) × Ascending now times

abbrev pub last_call : ℕ → List ℕ → ℕ
last_call last [] = last
last_call last (now ∷ times) = last_call now times

count_since-retain_since :
    (c cutoff : ℕ) (frames : List ℕ)
    → cutoff ≤ c
    → count_since c (retain_since cutoff frames) ≡ count_since c frames
unfolding retain_since
count_since-retain_since c cutoff [] h = refl
count_since-retain_since c cutoff (ts ∷ frames) h =
    ground (arith, h, count_since-retain_since c cutoff frames h)

count_since-append :
    (c : ℕ) (xs ys : List ℕ) → count_since c (xs ++ ys) ≡ count_since c xs + count_since c ys
count_since-append c [] ys = omega arith
count_since-append c (x ∷ xs) ys = ground (arith, count_since-append c xs ys)

count_since-le : (c : ℕ) (frames : List ℕ) → count_since c frames ≤ length frames
count_since-le c [] = omega arith
count_since-le c (ts ∷ frames) = ground (arith, count_since-le c frames)

-- The limiter knows every allowed frame that its window still holds.
record Knows (window threshold : ℕ) (limiter : FrameRateLimiter) (before : List ℕ) (last : ℕ)
    : Type 0 where
  same_window : limiter.window ≡ window
  same_threshold : limiter.threshold ≡ threshold
  known : (c : ℕ) → last - window ≤ c → count_since c before ≤ count_since c limiter.frames
  few : length limiter.frames ≤ threshold

retain_since-le :
    (cutoff : ℕ) (frames : List ℕ) → length (retain_since cutoff frames) ≤ length frames
unfolding retain_since
retain_since-le cutoff [] = omega arith
retain_since-le cutoff (ts ∷ frames) = ground (arith, retain_since-le cutoff frames)

check_and_record-Knows :
    (window threshold : ℕ) (limiter : FrameRateLimiter) (before : List ℕ) (last now : ℕ)
    → last ≤ now
    → Knows window threshold limiter before last
    → let checked = check_and_record limiter now in
      Knows window threshold checked.0 (if checked.1 then now ∷ before else before) now
unfolding check_and_record
check_and_record-Knows window threshold limiter before last now later k =
    elim (Bool-cases
      (ltb (length (retain_since (now - limiter.window) limiter.frames)) limiter.threshold)) [
        | inr full ↦
            rw (full, check_and_record)
              (record {
                same_window = k.same_window;
                same_threshold = k.same_threshold;
                known = λ c h. omega (arith, k.known c (omega (arith, h, later)), kept c h);
                few = omega (arith, k.few, retain_since-le (now - limiter.window) limiter.frames);
              })
        | inl room ↦
            rw (room, check_and_record)
              (record {
                same_window = k.same_window;
                same_threshold = k.same_threshold;
                known = λ c h. ground (
                  arith,
                  k.known c (omega (arith, h, later)),
                  kept c h,
                  count_since-append c (retain_since (now - limiter.window) limiter.frames)
                      (now ∷ []),
                );
                few = ground (
                  arith,
                  room,
                  k.same_threshold,
                  length-append (retain_since (now - limiter.window) limiter.frames) (now ∷ []),
                );
              })
      ]
  where
    kept :
        (c : ℕ)
        → now - window ≤ c
        → count_since c (retain_since (now - limiter.window) limiter.frames)
          ≡ count_since c limiter.frames
    kept c h =
        count_since-retain_since c (now - limiter.window) limiter.frames
          (omega (arith, h, k.same_window))

allowed-Knows :
    (times : List ℕ) (window threshold : ℕ) (limiter : FrameRateLimiter) (before : List ℕ)
    (last : ℕ)
    → Ascending last times
    → Knows window threshold limiter before last
    → count_since (last_call last times - window) (allowed limiter times before) ≤ threshold
allowed-Knows [] window threshold limiter before last ascending k = omega (
  arith,
  k.known (last - window) (omega arith),
  count_since-le (last - window) limiter.frames,
  k.few,
)
allowed-Knows (now ∷ times) window threshold limiter before last (later, ascending) k =
    allowed-Knows times window threshold (check_and_record limiter now).0 _ now ascending
      (check_and_record-Knows window threshold limiter before last now later k)

-- No window holds more than the threshold. If the clock never goes back, then after any calls from a
-- fresh limiter the frames that were allowed within the window before the last call are at most as
-- many as the threshold.
pub allowed-new_limiter :
    (window threshold start : ℕ) (times : List ℕ)
    → Ascending start times
    → count_since (last_call start times - window) (allowed (new_limiter window threshold) times [])
      ≤ threshold
unfolding new_limiter
allowed-new_limiter window threshold start times ascending =
    allowed-Knows times window threshold (new_limiter window threshold) [] start ascending (record {
      same_window = refl;
      same_threshold = refl;
      known = λ c h. omega arith;
      few = omega arith;
    })
