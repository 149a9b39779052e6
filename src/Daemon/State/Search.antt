-- ===== src/Daemon/State/Search.antt =====
-- src/daemon/state.rs with src/keymap_core/mapping_cache.rs: the lookups of the runtime state and the
-- search of the configuration that describes them.
use keymapper_rs.Prelude.{ℕ, Bool, true, List, [], ◌∷◌, Option, none, some, if◌then◌else◌, same}
use keymapper_rs.Common.Str.{Str, Str-discrete}
use keymapper_rs.Common.HidUsage.{HidUsage}
use keymapper_rs.Common.Keyboard.{KeyboardInfo, KeyboardSpecifier, any_matches}
use keymapper_rs.Common.Config.{AppConfig}
use keymapper_rs.Core.Rules.{NativeKey}
use keymapper_rs.Core.Engine.{or_else}
use keymapper_rs.Core.Cache.{compile_from_config}
use keymapper_rs.Core.Cache.Precedence.{search_groups}
use keymapper_rs.Daemon.State.{RuntimeState, new}

-- The last of the keyboards that has the device id.
abbrev pub keyboard_of : Str → List KeyboardInfo → Option KeyboardInfo
keyboard_of id [] = none
keyboard_of id (kb ∷ kbs) =
    or_else (keyboard_of id kbs) (if same Str-discrete id kb.device then some kb else none)

-- The keyboard an event comes from, if the platform tells and it is known.
abbrev pub source_of : Option Str → List KeyboardInfo → Option KeyboardInfo
source_of none keyboards = none
source_of (some id) keyboards = keyboard_of id keyboards

-- Whether a filter lets the keyboard pass: there is no filter, the keyboard is not known, or one of
-- the specifiers matches it.
abbrev pub passes : Option KeyboardInfo → Option (List KeyboardSpecifier) → Bool
passes none filter = true
passes (some kb) none = true
passes (some kb) (some filter) = any_matches filter kb

-- The same for the configuration's own filter, where an empty list is no filter.
abbrev pub passes_all : Option KeyboardInfo → Option (List KeyboardSpecifier) → Bool
passes_all kb none = true
passes_all kb (some []) = true
passes_all kb (some (spec ∷ specs)) = passes kb (some (spec ∷ specs))

module _ (to_lowercase : Str → Str) (config : AppConfig) (keyboards : List KeyboardInfo) where
  -- The state at startup.
  abbrev pub start : RuntimeState
  start = new (compile_from_config to_lowercase config) keyboards

  -- The search of the groups of the configuration for a key event of a keyboard.
  abbrev pub search : (List Str → Bool) → HidUsage → ℕ → Option Str → Option (List NativeKey)
  search in_scope usage modifiers device_id =
      search_groups usage modifiers (passes (source_of device_id keyboards)) (λ g. in_scope g.apps)
        config.groups
