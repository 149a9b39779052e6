-- ===== src/Core/Cache.antt =====
-- src/keymap_core/mapping_cache.rs: the compilation of a configuration into the lookup cache. A
-- `HashSet<u8>` is a list with no duplicates, in one of its orders; the sort at the end of
-- `expand_modifier_bits` makes the result independent of it.
pub mod Expand
pub mod Variants
pub mod Precedence
use keymapper_rs.Prelude.{
  ℕ, ◌+◌, ◌^◌, Bool, true, false, not, List, [], ◌∷◌, ◌++◌, Option, none, some, bit_or, ltb,
  if◌then◌else◌, insert, map_get, map_upsert, ℕ_discrete,
}
use keymapper_rs.Common.Str.{Str, Str-discrete}
use keymapper_rs.Common.HidUsage.{HidUsage, hid_usage_to_modifier_bit}
use keymapper_rs.Common.Keyboard.{KeyboardSpecifier}
use keymapper_rs.Common.Config.{KeyEvent, MappingTable, RuleGroup, AppConfig, is_empty}
use keymapper_rs.Core.Rules.{NativeKey, CompiledRule}

pub record RuntimeLookupCache : Type 0 where
  pub process_rules : List (Str × List CompiledRule)
  pub global_rules : List CompiledRule
  pub global_keyboards : Option (List KeyboardSpecifier)

-- `bits |= 1 << bit` for a usage that has a bit.
add_bit : Option ℕ → ℕ → ℕ
add_bit none bits = bits
add_bit (some bit) bits = bit_or bits (2 ^ bit)

compile_bits : ℕ → List HidUsage → ℕ
unfolding add_bit
compile_bits bits [] = bits
compile_bits bits (u ∷ us) = compile_bits (add_bit (hid_usage_to_modifier_bit u) bits) us

unfoldable pub compile_modifier_bits : List HidUsage → ℕ
unfolding compile_bits
compile_modifier_bits modifiers = compile_bits 0 modifiers

unfoldable pub compile_outputs : List KeyEvent → List NativeKey
unfolding compile_modifier_bits
compile_outputs [] = []
compile_outputs (event ∷ events) =
    record { modifiers = compile_modifier_bits event.modifiers; usage = event.base }
    ∷ compile_outputs events

-- The bits that a modifier may stand for: a left one for both sides.
choice_of : Option ℕ → List ℕ
choice_of (some bit) = if ltb bit 4 then bit ∷ (bit + 4) ∷ [] else bit ∷ []
choice_of none = 0 ∷ []

unfoldable pub choice : HidUsage → List ℕ
unfolding choice_of
choice u = choice_of (hid_usage_to_modifier_bit u)

-- The inner loop, over the bits of a choice.
insert_bits : ℕ → List ℕ → List ℕ → List ℕ
insert_bits acc [] next = next
insert_bits acc (bit ∷ bits) next =
    insert_bits acc bits (insert ℕ_discrete (bit_or acc (2 ^ bit)) next)

-- The middle loop, over the masks so far.
combine : List ℕ → List ℕ → List ℕ → List ℕ
unfolding insert_bits
combine [] bits next = next
combine (acc ∷ accs) bits next = combine accs bits (insert_bits acc bits next)

-- The outer loop, over the choices.
expand : List HidUsage → List ℕ → List ℕ
unfolding combine choice
expand [] results = results
expand (u ∷ us) results = expand us (combine results (choice u) [])

-- `sort_unstable`.
pub insert_sorted : ℕ → List ℕ → List ℕ
insert_sorted x [] = x ∷ []
insert_sorted x (y ∷ ys) = if ltb y x then y ∷ insert_sorted x ys else x ∷ y ∷ ys

pub sort : List ℕ → List ℕ
unfolding insert_sorted
sort [] = []
sort (x ∷ xs) = insert_sorted x (sort xs)

unfoldable pub expand_modifier_bits : List HidUsage → List ℕ
unfolding expand sort
expand_modifier_bits [] = 0 ∷ []
expand_modifier_bits (u ∷ us) = sort (expand (u ∷ us) (insert ℕ_discrete 0 []))

-- An empty list of keyboards is no restriction.
unfoldable pub group_keyboards : RuleGroup → Option (List KeyboardSpecifier)
group_keyboards group = if is_empty group.keyboards then none else some group.keyboards

-- `app.to_lowercase()` is the standard library's, over all of Unicode.
module _ (to_lowercase : Str → Str) where
  -- The lists that the loops of `compile_from_config` push to.
  abbrev pub Builder : Type 0
  Builder = List (Str × List CompiledRule) × List CompiledRule

  -- `process_rules.entry(app.to_lowercase()).or_default().push(rule)`, for each app.
  push_apps :
      CompiledRule → List Str → List (Str × List CompiledRule) → List (Str × List CompiledRule)
  push_apps rule [] process = process
  push_apps rule (app ∷ apps) process =
      push_apps rule apps (
        map_upsert Str-discrete (to_lowercase app) (λ rules. rules ++ rule ∷ []) (rule ∷ [])
          process)

  push_rule : List Str → CompiledRule → Builder → Builder
  unfolding push_apps
  push_rule [] rule (process, globals) = (process, globals ++ rule ∷ [])
  push_rule (app ∷ apps) rule (process, globals) = (push_apps rule (app ∷ apps) process, globals)

  -- The loop over the variants of one trigger.
  push_variants :
      List Str
      → HidUsage
      → List NativeKey
      → Option (List KeyboardSpecifier)
      → List ℕ
      → Builder
      → Builder
  unfolding push_rule
  push_variants apps usage outputs keyboards [] b = b
  push_variants apps usage outputs keyboards (mod_bits ∷ variants) b =
      push_variants apps usage outputs keyboards variants (
        push_rule apps
          (record { usage = usage; modifiers = mod_bits; outputs = outputs; keyboards = keyboards })
          b)

  push_mappings :
      List Str
      → Option (List KeyboardSpecifier)
      → List (KeyEvent × List KeyEvent)
      → Builder
      → Builder
  unfolding push_variants expand_modifier_bits compile_outputs
  push_mappings apps keyboards [] b = b
  push_mappings apps keyboards ((trigger, outputs) ∷ mappings) b =
      push_mappings apps keyboards mappings (
        push_variants apps trigger.base (compile_outputs outputs) keyboards
          (expand_modifier_bits trigger.modifiers) b)

  pub push_groups : List RuleGroup → Builder → Builder
  unfolding push_mappings group_keyboards is_empty
  push_groups [] b = b
  push_groups (group ∷ groups) b = push_groups groups (
      if is_empty group.mappings.entries
      then b
      else push_mappings group.apps (group_keyboards group) group.mappings.entries b)

  -- `filter(|kbs| !kbs.is_empty())`.
  unfoldable pub nonempty_keyboards :
      Option (List KeyboardSpecifier) → Option (List KeyboardSpecifier)
  nonempty_keyboards none = none
  nonempty_keyboards (some kbs) = if is_empty kbs then none else some kbs

  unfoldable pub compile_from_config : AppConfig → RuntimeLookupCache
  unfolding push_groups nonempty_keyboards is_empty
  compile_from_config config =
      let b = push_groups config.groups ([], []) in
      record {
        process_rules = b.0;
        global_rules = b.1;
        global_keyboards = nonempty_keyboards config.keyboards;
      }

  -- `RuntimeLookupCache::process_rules`, with its folded key.
  unfoldable pub process_rules_of : RuntimeLookupCache → Str → Option (List CompiledRule)
  process_rules_of cache app = map_get Str-discrete (to_lowercase app) cache.process_rules
