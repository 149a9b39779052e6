-- ===== src/Platform/Macos/RateLimit.antt =====
-- src/platform/macos/ipc_server.rs, `FrameRateLimiter`: the frames of one connection. An instant is a
-- number, which each call is given, and no instant is earlier than the window.
pub mod Window
use keymapper_rs.Prelude.{
  ℕ, ◌-◌, Bool, true, false, not, List, [], ◌∷◌, ◌++◌, ltb, length, if◌then◌else◌,
}

pub record FrameRateLimiter : Type 0 where
  pub window : ℕ
  pub threshold : ℕ
  pub frames : List ℕ

unfoldable pub new_limiter : ℕ → ℕ → FrameRateLimiter
new_limiter window threshold = record { window = window; threshold = threshold; frames = [] }

-- `retain(|&ts| ts >= cutoff)`.
unfoldable pub retain_since : ℕ → List ℕ → List ℕ
retain_since cutoff [] = []
retain_since cutoff (ts ∷ frames) =
    let rest = retain_since cutoff frames in if not (ltb ts cutoff) then ts ∷ rest else rest

unfoldable pub check_and_record : FrameRateLimiter → ℕ → FrameRateLimiter × Bool
unfolding retain_since
check_and_record limiter now =
    let frames = retain_since (now - limiter.window) limiter.frames in
    if not (ltb (length frames) limiter.threshold)
    then (record limiter { frames = frames }, false)
    else (record limiter { frames = frames ++ now ∷ [] }, true)
