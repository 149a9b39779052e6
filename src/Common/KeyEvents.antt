-- ===== src/Common/KeyEvents.antt =====
-- src/common/config.rs, `KeyEvent`: its canonical form and its parser. `str::trim` is the standard
-- library's, over all of Unicode, and a parameter.
pub mod RoundTrip
use keymapper_rs.Prelude.{
  ℕ, suc, Bool, true, false, List, [], ◌∷◌, ◌++◌, Option, none, some, ◌==◌, ltb, if◌then◌else◌,
  length,
}
use keymapper_rs.Common.Str.{Str}
use keymapper_rs.Common.HidUsage.{HidUsage, as_str, try_from}
use keymapper_rs.Common.Frame.{Result, ok, err}
use keymapper_rs.Common.Config.{KeyEvent, is_empty}

pub data KeyEventParseError : Type 0 where
  empty : KeyEventParseError
  empty_token : KeyEventParseError
  unknown_key : Str → KeyEventParseError
  too_many_modifiers : ℕ → KeyEventParseError

-- The code of `+`.
abbrev pub plus : ℕ
plus = 43

-- The modifiers after the first.
unfoldable pub display_rest : List HidUsage → Str
display_rest [] = []
display_rest (m ∷ ms) = plus ∷ as_str m ++ display_rest ms

-- The loop of `fmt`.
unfoldable pub display_modifiers : List HidUsage → Str
unfolding display_rest
display_modifiers [] = []
display_modifiers (m ∷ ms) = as_str m ++ display_rest ms

unfoldable pub fmt : KeyEvent → Str
unfolding display_modifiers is_empty
fmt event =
    display_modifiers event.modifiers
    ++ (if is_empty event.modifiers then [] else plus ∷ [])
    ++ as_str event.base

-- A character goes to the first part.
unfoldable pub cons_head : ℕ → List Str → List Str
cons_head c [] = (c ∷ []) ∷ []
cons_head c (part ∷ parts) = (c ∷ part) ∷ parts

-- `s.split('+')`.
unfoldable pub split : Str → List Str
unfolding cons_head
split [] = [] ∷ []
split (c ∷ s) = if c == plus then [] ∷ split s else cons_head c (split s)

-- `parts[parts.len() - 1]` and `parts[..parts.len() - 1]`.
unfoldable pub last_part : Str → List Str → Str
last_part part [] = part
last_part part (next ∷ parts) = last_part next parts

unfoldable pub first_parts : Str → List Str → List Str
first_parts part [] = []
first_parts part (next ∷ parts) = part ∷ first_parts next parts

unfoldable pub key_or_unknown : Str → Option HidUsage → Result KeyEventParseError HidUsage
key_or_unknown trimmed none = err (unknown_key trimmed)
key_or_unknown trimmed (some usage) = ok usage

-- `collect` into a `Result`: the first error wins.
unfoldable pub push_modifier :
    Result KeyEventParseError HidUsage
    → Result KeyEventParseError (List HidUsage)
    → Result KeyEventParseError (List HidUsage)
push_modifier (err e) rest = err e
push_modifier (ok usage) (err e) = err e
push_modifier (ok usage) (ok usages) = ok (usage ∷ usages)

-- The base is parsed before the modifiers.
unfoldable pub chord :
    Result KeyEventParseError HidUsage
    → Result KeyEventParseError (List HidUsage)
    → Result KeyEventParseError KeyEvent
chord (err e) modifiers = err e
chord (ok base) (err e) = err e
chord (ok base) (ok modifiers) = ok (record { modifiers = modifiers; base = base })

module _ (trim : Str → Str) where
  unfoldable pub parse_key : Str → Result KeyEventParseError HidUsage
  unfolding is_empty key_or_unknown
  parse_key token =
      if is_empty (trim token)
      then err empty_token
      else key_or_unknown (trim token) (try_from (trim token))

  unfoldable pub parse_modifiers : List Str → Result KeyEventParseError (List HidUsage)
  unfolding parse_key push_modifier
  parse_modifiers [] = ok []
  parse_modifiers (part ∷ parts) = push_modifier (parse_key part) (parse_modifiers parts)

  unfoldable pub parse_parts : List Str → Result KeyEventParseError KeyEvent
  unfolding parse_key parse_modifiers chord last_part first_parts is_empty
  parse_parts [] = err empty
  parse_parts (part ∷ []) =
      if is_empty (trim part) then err empty else chord (parse_key part) (ok [])
  parse_parts (part ∷ next ∷ parts) =
      if ltb 9 (suc (suc (length parts)))
      then err (too_many_modifiers (suc (length parts)))
      else chord (parse_key (last_part next parts))
          (parse_modifiers (first_parts part (next ∷ parts)))

  unfoldable pub parse_event : Str → Result KeyEventParseError KeyEvent
  unfolding parse_parts split
  parse_event s = parse_parts (split s)
