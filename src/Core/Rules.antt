-- ===== src/Core/Rules.antt =====
-- src/keymap_core/mapping_cache.rs: the native key events and the compiled rules.
use keymapper_rs.Prelude.{ℕ, List, Option}
use keymapper_rs.Common.HidUsage.{HidUsage}
use keymapper_rs.Common.Keyboard.{KeyboardSpecifier}

pub record NativeKey : Type 0 where
  pub modifiers : ℕ
  pub usage : HidUsage

pub record CompiledRule : Type 0 where
  pub usage : HidUsage
  pub modifiers : ℕ
  pub outputs : List NativeKey
  pub keyboards : Option (List KeyboardSpecifier)
