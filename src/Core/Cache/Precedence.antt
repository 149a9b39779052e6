-- ===== src/Core/Cache/Precedence.antt =====
-- src/keymap_core/mapping_cache.rs, `compile_from_config`: the order of the compiled rules, and a
-- search of the configuration that knows no compiled rules.
use keymapper_rs.Prelude.{
  ℕ, ◌≡◌, refl, Bool, false, ◌||◌, ◌&&◌, List, [], ◌∷◌, Option, none, some, ◌==◌, if◌then◌else◌,
  same,
}
use keymapper_rs.Common.Str.{Str, Str-discrete}
use keymapper_rs.Common.HidUsage.{HidUsage, usage_eq}
use keymapper_rs.Common.Keyboard.{KeyboardSpecifier}
use keymapper_rs.Common.Config.{KeyEvent, RuleGroup}
use keymapper_rs.Core.Rules.{NativeKey, CompiledRule}
use keymapper_rs.Core.Lookup.{find_match}
use keymapper_rs.Core.Engine.{or_else}
use keymapper_rs.Core.Cache.{
  Builder, push_rule, group_keyboards, compile_outputs, expand_modifier_bits,
}

or_else_assoc {ℓ} :
    {A : Type ℓ} (a b c : Option A) → or_else (or_else a b) c ≡ or_else a (or_else b c)
unfolding or_else
or_else_assoc none b c = refl
or_else_assoc (some a) b c = refl

pub or_else-none {ℓ} : {A : Type ℓ} (a : Option A) → or_else a none ≡ a
unfolding or_else
or_else-none none = refl
or_else-none (some a) = refl

or_else_idem {ℓ} : {A : Type ℓ} (a : Option A) → or_else a a ≡ a
unfolding or_else
or_else_idem none = refl
or_else_idem (some a) = refl

-- Whether one of the masks is the one that is held.
abbrev pub among : ℕ → List ℕ → Bool
among m [] = false
among m (x ∷ xs) = x == m || among m xs

-- Whether the app is listed, without regard to case.
abbrev pub lists_app : (Str → Str) → Str → List Str → Bool
lists_app to_lowercase app [] = false
lists_app to_lowercase app (a ∷ apps) =
    same Str-discrete (to_lowercase app) (to_lowercase a) || lists_app to_lowercase app apps

-- A lookup: the key, the modifiers that are held and the test of a rule's keyboard filter.
module _ (usage : HidUsage) (modifiers : ℕ) (check : Option (List KeyboardSpecifier) → Bool) where
  abbrev pub Outputs : Type 0
  Outputs = Option (List NativeKey)

  -- The search of the mappings of a group.
  abbrev pub search_mappings :
      Option (List KeyboardSpecifier) → List (KeyEvent × List KeyEvent) → Outputs
  search_mappings keyboards [] = none
  search_mappings keyboards ((trigger, outputs) ∷ mappings) =
      if usage_eq trigger.base usage
        && among modifiers (expand_modifier_bits trigger.modifiers)
        && check keyboards
      then some (compile_outputs outputs)
      else search_mappings keyboards mappings

  -- The search of the groups in scope.
  abbrev pub search_groups : (RuleGroup → Bool) → List RuleGroup → Outputs
  search_groups in_scope [] = none
  search_groups in_scope (group ∷ groups) =
      or_else
        (if in_scope group
          then search_mappings (group_keyboards group) group.mappings.entries
          else none)
        (search_groups in_scope groups)

  abbrev pub answer_of : List CompiledRule → Outputs
  answer_of rules = find_match rules usage modifiers check

  -- What one rule answers.
  abbrev rule_answer : CompiledRule → Outputs
  rule_answer rule =
      if usage_eq rule.usage usage && rule.modifiers == modifiers && check rule.keyboards
      then some rule.outputs
      else none

  -- A view of the builder that each pushed rule extends, if its group is in scope.
  record IsView (to_lowercase : Str → Str) (view : Builder to_lowercase → Outputs)
      (in_scope : List Str → Bool) : Type 0 where
    extends :
        (apps : List Str) (rule : CompiledRule) (b : Builder to_lowercase)
        → view (push_rule to_lowercase apps rule b)
          ≡ or_else (view b) (if in_scope apps then rule_answer rule else none)

  -- The answer of the rules of an app, if it has any.
  abbrev pub answer_in : Option (List CompiledRule) → Outputs
  answer_in none = none
  answer_in (some rules) = answer_of rules
