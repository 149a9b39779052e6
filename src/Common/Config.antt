-- ===== src/Common/Config.antt =====
-- src/common/config.rs: the parsed configuration document.
use keymapper_rs.Prelude.{Bool, true, false, List, [], ◌∷◌, Option}
use keymapper_rs.Common.Str.{Str}
use keymapper_rs.Common.HidUsage.{HidUsage}
use keymapper_rs.Common.Keyboard.{KeyboardSpecifier}

pub record KeyEvent : Type 0 where
  pub modifiers : List HidUsage
  pub base : HidUsage

-- The `IndexMap`, in definition order.
pub record MappingTable : Type 0 where
  pub entries : List (KeyEvent × List KeyEvent)

unfoldable pub is_empty {ℓ} : {A : Type ℓ} → List A → Bool
is_empty [] = true
is_empty (x ∷ xs) = false

pub record RuleGroup : Type 0 where
  pub name : Option Str
  pub apps : List Str
  pub keyboards : List KeyboardSpecifier
  pub mappings : MappingTable

pub record AppConfig : Type 0 where
  pub keyboards : Option (List KeyboardSpecifier)
  pub groups : List RuleGroup
