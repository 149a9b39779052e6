-- ===== src/Common/KeyEvents/RoundTrip.antt =====
-- src/common/config.rs, `KeyEvent`: the canonical form and the parser together.
use keymapper_rs.Prelude.{
  suc, ◌≤◌, ◌≡◌, refl, ap, ap₂, ◌∙◌, Bool, true, false, not, ◌&&◌, List, [], ◌∷◌, ◌++◌, arith, ◌==◌,
  length,
}
use keymapper_rs.Common.Str.{Str}
use keymapper_rs.Common.HidUsage.{HidUsage, as_str}
use keymapper_rs.Common.HidUsage.Names.{try_from-as_str}
use keymapper_rs.Common.Frame.{Result}
use keymapper_rs.Common.Config.{KeyEvent, is_empty}
use keymapper_rs.Common.KeyEvents.{
  plus, display_rest, display_modifiers, fmt, cons_head, split, last_part, first_parts,
  key_or_unknown, push_modifier, chord, parse_key, parse_modifiers, parse_parts, parse_event,
}

-- No character of the string is `+`.
plain : Str → Bool
plain [] = true
plain (c ∷ s) = not (c == plus) && plain s

as_str-plain : (u : HidUsage) → plain (as_str u) ≡ true
unfolding plain as_str
as_str-plain HidUsage.left_control = refl
as_str-plain _ = refl

as_str_nonempty : (u : HidUsage) → is_empty (as_str u) ≡ false
unfolding is_empty as_str
as_str_nonempty HidUsage.left_control = refl
as_str_nonempty _ = refl

split-plain : (s : Str) → plain s ≡ true → split s ≡ s ∷ []
unfolding split plain cons_head
split-plain [] h = refl
split-plain (c ∷ s) h = ground (arith, h, split-plain s)

split-append : (s rest : Str) → plain s ≡ true → split (s ++ plus ∷ rest) ≡ s ∷ split rest
unfolding split plain cons_head
split-append [] rest h = refl
split-append (c ∷ s) rest h = ground (arith, h, split-append s rest)

append_assoc : (s t u : Str) → (s ++ t) ++ u ≡ s ++ (t ++ u)
append_assoc [] t u = refl
append_assoc (c ∷ s) t u = ap (λ r. c ∷ r) (append_assoc s t u)

-- The tokens of an event, and the string that joins them.
tokens : List HidUsage → HidUsage → List Str
tokens [] base = as_str base ∷ []
tokens (m ∷ ms) base = as_str m ∷ tokens ms base

joined : List HidUsage → HidUsage → Str
joined [] base = as_str base
joined (m ∷ ms) base = as_str m ++ plus ∷ joined ms base

display_rest-append :
    (ms : List HidUsage) (base : HidUsage)
    → display_rest ms ++ plus ∷ as_str base ≡ plus ∷ joined ms base
unfolding display_rest joined
display_rest-append [] base = refl
display_rest-append (m ∷ ms) base =
    ap (λ r. plus ∷ r)
      (append_assoc (as_str m) (display_rest ms) (plus ∷ as_str base)
        ∙ ap (λ r. as_str m ++ r) (display_rest-append ms base))

fmt-joined :
    (ms : List HidUsage) (base : HidUsage)
    → fmt (record { modifiers = ms; base = base }) ≡ joined ms base
unfolding fmt display_modifiers is_empty joined
fmt-joined [] base = refl
fmt-joined (m ∷ ms) base =
    append_assoc (as_str m ++ display_rest ms) (plus ∷ []) (as_str base)
    ∙ append_assoc (as_str m) (display_rest ms) (plus ∷ as_str base)
    ∙ ap (λ r. as_str m ++ r) (display_rest-append ms base)

split-joined : (ms : List HidUsage) (base : HidUsage) → split (joined ms base) ≡ tokens ms base
unfolding joined tokens
split-joined [] base = split-plain (as_str base) (as_str-plain base)
split-joined (m ∷ ms) base =
    split-append (as_str m) (joined ms base) (as_str-plain m)
    ∙ ap (λ ts. as_str m ∷ ts) (split-joined ms base)

length-tokens : (ms : List HidUsage) (base : HidUsage) → length (tokens ms base) ≡ suc (length ms)
unfolding tokens
length-tokens [] base = refl
length-tokens (m ∷ ms) base = ap suc (length-tokens ms base)

last_token :
    (part : Str) (ms : List HidUsage) (base : HidUsage)
    → last_part part (tokens ms base) ≡ as_str base
unfolding last_part tokens
last_token part [] base = refl
last_token part (m ∷ ms) base = last_token (as_str m) ms base

-- The tokens before the last.
modifier_tokens : List HidUsage → List Str
modifier_tokens [] = []
modifier_tokens (m ∷ ms) = as_str m ∷ modifier_tokens ms

first_tokens :
    (part : Str) (ms : List HidUsage) (base : HidUsage)
    → first_parts part (tokens ms base) ≡ part ∷ modifier_tokens ms
unfolding first_parts tokens modifier_tokens
first_tokens part [] base = refl
first_tokens part (m ∷ ms) base = ap (λ ts. part ∷ ts) (first_tokens (as_str m) ms base)

module _ (trim : Str → Str) (trims : (u : HidUsage) → trim (as_str u) ≡ as_str u) where
  parse_key-as_str : (u : HidUsage) → parse_key trim (as_str u) ≡ Result.ok u
  unfolding parse_key key_or_unknown
  parse_key-as_str u = rw (trims u, as_str_nonempty u, try_from-as_str u) refl

  parse_modifiers-tokens :
      (ms : List HidUsage) → parse_modifiers trim (modifier_tokens ms) ≡ Result.ok ms
  unfolding parse_modifiers modifier_tokens push_modifier
  parse_modifiers-tokens [] = refl
  parse_modifiers-tokens (m ∷ ms) = rw (parse_key-as_str m, parse_modifiers-tokens ms) refl

  parse_parts-chord :
      (part : Str) (ms : List HidUsage) (base : HidUsage)
      → length ms ≤ 7
      → parse_parts trim (part ∷ tokens ms base)
        ≡ chord
            (parse_key trim (last_part part (tokens ms base)))
            (parse_modifiers trim (first_parts part (tokens ms base)))
  unfolding parse_parts tokens last_part first_parts
  parse_parts-chord part [] base few = refl
  parse_parts-chord part (m ∷ ms) base few = ground (arith, few, length-tokens ms base)

  parse_parts-tokens :
      (ms : List HidUsage) (base : HidUsage)
      → length ms ≤ 8
      → parse_parts trim (tokens ms base) ≡ Result.ok (record { modifiers = ms; base = base })
  unfolding parse_parts tokens chord parse_key key_or_unknown modifier_tokens
  parse_parts-tokens [] base few = rw (trims base, as_str_nonempty base, try_from-as_str base) refl
  parse_parts-tokens (m ∷ ms) base few =
      parse_parts-chord (as_str m) ms base (omega (arith, few))
      ∙ ap₂ chord (ap (parse_key trim) (last_token (as_str m) ms base) ∙ parse_key-as_str base) (
          ap (parse_modifiers trim) (first_tokens (as_str m) ms base)
          ∙ parse_modifiers-tokens (m ∷ ms))

  -- An event is parsed back from its canonical form, if it has at most eight modifiers and if
  -- trimming leaves the canonical names of the keys as they are.
  pub parse_event-fmt :
      (event : KeyEvent)
      → length event.modifiers ≤ 8
      → parse_event trim (fmt event) ≡ Result.ok event
  unfolding parse_event
  parse_event-fmt event few =
      ap (λ s. parse_parts trim (split s)) (fmt-joined event.modifiers event.base)
      ∙ ap (parse_parts trim) (split-joined event.modifiers event.base)
      ∙ parse_parts-tokens event.modifiers event.base few
