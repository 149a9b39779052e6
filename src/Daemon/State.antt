-- ===== src/Daemon/State.antt =====
-- src/daemon/state.rs: the runtime state that answers the lookups of the engine. The name of the
-- focused application, which the platform gives, is an argument of the lookups that ask for it.
pub mod Search
use keymapper_rs.Prelude.{
  ℕ, Bool, true, not, List, [], ◌∷◌, Option, none, some, if◌then◌else◌, map_get, map_upsert,
}
use keymapper_rs.Common.Str.{Str, Str-discrete}
use keymapper_rs.Common.HidUsage.{HidUsage}
use keymapper_rs.Common.Keyboard.{KeyboardInfo, KeyboardSpecifier, any_matches}
use keymapper_rs.Core.Rules.{NativeKey, CompiledRule}
use keymapper_rs.Core.Lookup.{Lookup, find_match}
use keymapper_rs.Core.Cache.{RuntimeLookupCache, process_rules_of}

pub record RuntimeState : Type 0 where
  pub lookup_cache : RuntimeLookupCache
  pub keyboard_registry : List (Str × KeyboardInfo)

-- `map(|kb| (kb.device.clone(), kb)).collect()`: of two keyboards of one device the later stays.
unfoldable pub collect : List KeyboardInfo → List (Str × KeyboardInfo) → List (Str × KeyboardInfo)
collect [] registry = registry
collect (kb ∷ kbs) registry =
    collect kbs (map_upsert Str-discrete kb.device (λ old. kb) kb registry)

unfoldable pub new : RuntimeLookupCache → List KeyboardInfo → RuntimeState
unfolding collect
new cache keyboards = record { lookup_cache = cache; keyboard_registry = collect keyboards [] }

unfoldable pub resolve_keyboard : RuntimeState → Str → Option KeyboardInfo
resolve_keyboard s device_id = map_get Str-discrete device_id s.keyboard_registry

-- The last three steps of both checks: no device id, an unknown device, and the specifiers.
unfoldable pub check_known : List KeyboardSpecifier → Option KeyboardInfo → Bool
check_known filter none = true
check_known filter (some kb_info) = any_matches filter kb_info

unfoldable pub check_device : RuntimeState → List KeyboardSpecifier → Option Str → Bool
unfolding check_known resolve_keyboard
check_device s filter none = true
check_device s filter (some id) = check_known filter (resolve_keyboard s id)

unfoldable pub check_filter : RuntimeState → Option (List KeyboardSpecifier) → Option Str → Bool
unfolding check_device
check_filter s none device_id = true
check_filter s (some filter) device_id = check_device s filter device_id

unfoldable pub check_global_keyboard_filter : RuntimeState → Option Str → Bool
unfolding check_filter
check_global_keyboard_filter s device_id = check_filter s s.lookup_cache.global_keyboards device_id

unfoldable pub check_rule_keyboard_filter :
    RuntimeState → Option (List KeyboardSpecifier) → Option Str → Bool
unfolding check_filter
check_rule_keyboard_filter s filter device_id = check_filter s filter device_id

-- The rules of an app, if there are any.
unfoldable pub match_rules :
    RuntimeState → Option (List CompiledRule) → HidUsage → ℕ → Option Str → Option (List NativeKey)
unfolding check_rule_keyboard_filter
match_rules s none usage modifiers device_id = none
match_rules s (some rules) usage modifiers device_id =
    find_match rules usage modifiers (λ f. check_rule_keyboard_filter s f device_id)

unfoldable pub global : RuntimeState → HidUsage → ℕ → Option Str → Option (List NativeKey)
unfolding check_global_keyboard_filter check_rule_keyboard_filter
global s usage modifiers device_id =
    if not (check_global_keyboard_filter s device_id)
    then none
    else find_match s.lookup_cache.global_rules usage modifiers
        (λ f. check_rule_keyboard_filter s f device_id)

unfoldable pub set_lookup_cache : RuntimeState → RuntimeLookupCache → RuntimeState
set_lookup_cache s cache = record s { lookup_cache = cache }

-- `app.to_lowercase()`, as in the compilation.
module _ (to_lowercase : Str → Str) where
  unfoldable pub for_app : RuntimeState → Str → HidUsage → ℕ → Option Str → Option (List NativeKey)
  unfolding check_global_keyboard_filter match_rules
  for_app s app usage modifiers device_id =
      if not (check_global_keyboard_filter s device_id)
      then none
      else match_rules s (process_rules_of to_lowercase s.lookup_cache app) usage modifiers
          device_id

  unfoldable pub for_active_app :
      RuntimeState → Str → HidUsage → ℕ → Option Str → Option (List NativeKey)
  unfolding for_app
  for_active_app s focus usage modifiers device_id = for_app s focus usage modifiers device_id

  -- `impl Lookup for RuntimeState`, while the application `focus` has the focus.
  unfoldable pub lookup_of : RuntimeState → Str → Lookup
  unfolding for_app for_active_app global
  lookup_of s focus = record {
    for_app = for_app s;
    for_active_app = for_active_app s focus;
    global = global s;
  }
