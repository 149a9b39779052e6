-- ===== src/Common/Keyboard.antt =====
-- src/common/keyboard.rs: the metadata of a keyboard, and the specifiers that select keyboards.
pub mod Filter
use keymapper_rs.Prelude.{
  Bool, true, false, not, ◌&&◌, ◌||◌, List, [], ◌∷◌, Option, none, some, if◌then◌else◌,
}
use keymapper_rs.Common.Str.{Str, eq_ignore_ascii_case}

pub record KeyboardInfo : Type 0 where
  pub name : Str
  pub vendor : Str
  pub model : Str
  pub device : Str
  pub port : Option Str

pub record KeyboardSpecifier : Type 0 where
  pub name : Option Str
  pub vendor : Option Str
  pub model : Option Str
  pub port : Option Str

unfoldable pub is_none {ℓ} : {A : Type ℓ} → Option A → Bool
is_none none = true
is_none (some a) = false

unfoldable pub is_empty : KeyboardSpecifier → Bool
unfolding is_none
is_empty s = is_none s.name && is_none s.vendor && is_none s.model && is_none s.port

unfoldable pub str_matches_ignore_case : Str → Str → Bool
str_matches_ignore_case pattern value = eq_ignore_ascii_case pattern value

-- The guard `if let Some(ref p) = field && !str_matches_ignore_case(p, value)` of `matches`.
unfoldable pub mismatches : Option Str → Str → Bool
mismatches none value = false
mismatches (some p) value = not (str_matches_ignore_case p value)

-- The same for the port, which the keyboard may lack.
unfoldable pub port_mismatches : Option Str → Option Str → Bool
port_mismatches none device_port = false
port_mismatches (some p) (some device_port) = not (str_matches_ignore_case p device_port)
port_mismatches (some p) none = true

unfoldable pub matches : KeyboardSpecifier → KeyboardInfo → Bool
unfolding mismatches port_mismatches
matches s info =
    if mismatches s.name info.name
    then false
    else if mismatches s.vendor info.vendor
    then false
    else if mismatches s.model info.model
    then false
    else if port_mismatches s.port info.port
    then false
    else true

-- `specs.iter().any(|spec| spec.matches(kb))`.
unfoldable pub any_matches : List KeyboardSpecifier → KeyboardInfo → Bool
any_matches [] kb = false
any_matches (spec ∷ specs) kb = matches spec kb || any_matches specs kb

unfoldable pub filter_matching : List KeyboardInfo → List KeyboardSpecifier → List KeyboardInfo
filter_matching [] specs = []
filter_matching (kb ∷ kbs) specs =
    if any_matches specs kb then kb ∷ filter_matching kbs specs else filter_matching kbs specs

unfoldable pub filter_keyboards_by_specifiers :
    List KeyboardInfo → Option (List KeyboardSpecifier) → List KeyboardInfo
unfolding filter_matching
filter_keyboards_by_specifiers keyboards none = keyboards
filter_keyboards_by_specifiers keyboards (some []) = keyboards
filter_keyboards_by_specifiers keyboards (some (spec ∷ specs)) =
    filter_matching keyboards (spec ∷ specs)
