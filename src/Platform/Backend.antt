-- ===== src/Platform/Backend.antt =====
-- src/platform/backend.rs: what the capture and the emission of every system share.
use keymapper_rs.Prelude.{ℕ, ◌==◌, Option, if◌then◌else◌}
use keymapper_rs.Common.HidUsage.{HidUsage}
use keymapper_rs.Core.Rules.{NativeKey}

-- An `i32` value is here the number that `as u32` makes of it.
pub record CapturedKey : Type 0 where
  pub native : ℕ
  pub value : ℕ
  pub usage : Option HidUsage

pub data Direction : Type 0 where
  up down repeat : Direction

unfoldable pub direction : CapturedKey → Direction
direction key = if key.value == 0 then up else if key.value == 1 then down else repeat

pub data OutputAction : Type 0 where
  forward : (native : ℕ) (value : ℕ) → OutputAction
  release_consumed : (consumed : ℕ) → OutputAction
  tap : NativeKey → OutputAction
  hold : NativeKey → OutputAction
