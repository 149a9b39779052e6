-- ===== src/Core/Lookup.antt =====
-- src/keymap_core/lookup.rs: the read-only interface of the rules, and the scan for the first match.
use keymapper_rs.Prelude.{ℕ, Bool, ◌&&◌, List, [], ◌∷◌, Option, none, some, ◌==◌, if◌then◌else◌}
use keymapper_rs.Common.Str.{Str}
use keymapper_rs.Common.HidUsage.{HidUsage, usage_eq}
use keymapper_rs.Common.Keyboard.{KeyboardSpecifier}
use keymapper_rs.Core.Rules.{NativeKey, CompiledRule}

-- The trait `Lookup`, at the moment of one call: usage, modifiers, device id.
pub record Lookup : Type 0 where
  pub for_app : Str → HidUsage → ℕ → Option Str → Option (List NativeKey)
  pub for_active_app : HidUsage → ℕ → Option Str → Option (List NativeKey)
  pub global : HidUsage → ℕ → Option Str → Option (List NativeKey)

unfoldable pub find_match :
    List CompiledRule
    → HidUsage
    → ℕ
    → (Option (List KeyboardSpecifier) → Bool)
    → Option (List NativeKey)
find_match [] usage modifiers check_keyboard = none
find_match (rule ∷ rules) usage modifiers check_keyboard =
    if usage_eq rule.usage usage && rule.modifiers == modifiers && check_keyboard rule.keyboards
    then some rule.outputs
    else find_match rules usage modifiers check_keyboard
