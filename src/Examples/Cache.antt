-- ===== src/Examples/Cache.antt =====
-- Two groups, one for the application `vi` and one for all, that map the shifted A, and the runtime
-- state that serves them.
use keymapper_rs.Prelude.{insert, contains, ℕ_discrete}
use keymapper_rs.Prelude.{ℕ, ◌≡◌, ◌↔◌, ◌⊎◌, refl, List, [], ◌∷◌, none, some, All}
use keymapper_rs.Common.Str.{Str, bytes, to_ascii_lowercase}
use keymapper_rs.Common.HidUsage.{HidUsage, hid_usage_to_modifier_bit}
use keymapper_rs.Common.Keyboard.{KeyboardInfo, KeyboardSpecifier, filter_keyboards_by_specifiers}
use keymapper_rs.Common.Keyboard.Filter.{Selected, In-filter_keyboards_by_specifiers_iff}
use keymapper_rs.Common.Keyboard.Filter
use keymapper_rs.Common.Config.{KeyEvent, AppConfig}
use keymapper_rs.Core.Cache.{expand_modifier_bits, compile_modifier_bits}
use keymapper_rs.Core.Cache.Expand.{In, Chooses, In-expand_modifier_bits_iff}
use keymapper_rs.Core.Cache.Variants.{
  IsAscending, IsModifier, Holds, expand_modifier_bits-IsAscending, expand_modifier_bits-Holds,
}

-- A folding of the case that only knows ASCII.
abbrev fold : Str → Str
fold [] = []
fold (c ∷ cs) = to_ascii_lowercase c ∷ fold cs

abbrev shift_control : List HidUsage
shift_control = HidUsage.left_shift ∷ HidUsage.left_control ∷ []

-- Either side of both modifiers.
expanded : expand_modifier_bits shift_control ≡ 3 ∷ 18 ∷ 33 ∷ 48 ∷ []
unfolding expand_modifier_bits insert contains hid_usage_to_modifier_bit ℕ_discrete
expanded = refl

are_modifiers : All IsModifier shift_control
unfolding hid_usage_to_modifier_bit
are_modifiers = ((1, refl), ((0, refl), tt))

In-expand_modifier_bits_iff_example :
    In 18 (expand_modifier_bits shift_control) ↔ Chooses shift_control 0 18
In-expand_modifier_bits_iff_example = In-expand_modifier_bits_iff shift_control 18

expand_modifier_bits-IsAscending_example : IsAscending (expand_modifier_bits shift_control)
expand_modifier_bits-IsAscending_example = expand_modifier_bits-IsAscending shift_control

expand_modifier_bits-Holds_example :
    ((m : ℕ) → In m (expand_modifier_bits shift_control) → All (Holds m) shift_control)
    × In (compile_modifier_bits shift_control) (expand_modifier_bits shift_control)
expand_modifier_bits-Holds_example = expand_modifier_bits-Holds shift_control are_modifiers

abbrev trigger : KeyEvent
trigger = record { modifiers = HidUsage.left_shift ∷ []; base = HidUsage.key_a }

abbrev gives : HidUsage → List (KeyEvent × List KeyEvent)
gives usage = (trigger, record { modifiers = []; base = usage } ∷ []) ∷ []

abbrev us_keyboard : KeyboardSpecifier
us_keyboard = record { name = some (bytes "US"); vendor = none; model = none; port = none }

abbrev board : KeyboardInfo
board = record {
  name = bytes "us";
  vendor = bytes "v";
  model = bytes "m";
  device = bytes "d0";
  port = none;
}

abbrev config : AppConfig
config = record {
  keyboards = some (us_keyboard ∷ []);
  groups =
      record {
        name = none;
        apps = [];
        keyboards = [];
        mappings = record { entries = gives HidUsage.key_b };
      }
      ∷ record {
        name = none;
        apps = bytes "Vi" ∷ [];
        keyboards = us_keyboard ∷ [];
        mappings = record { entries = gives HidUsage.key_c };
      }
      ∷ [];
}

In-filter_keyboards_by_specifiers_iff_example :
    (Filter.In board (filter_keyboards_by_specifiers (board ∷ []) (some (us_keyboard ∷ []))) ↔ (
      Filter.In board (board ∷ []) × ((us_keyboard ∷ [] ≡ []) ⊎ Selected (us_keyboard ∷ []) board)))
    × (filter_keyboards_by_specifiers (board ∷ []) none ≡ board ∷ [])
In-filter_keyboards_by_specifiers_iff_example =
    In-filter_keyboards_by_specifiers_iff board (board ∷ []) (us_keyboard ∷ [])
