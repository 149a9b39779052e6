-- ===== src/Common/Keyboard/Filter.antt =====
-- src/common/keyboard.rs: which keyboards the specifiers select.
use keymapper_rs.Prelude.{
  ◌≡◌, ◌↔◌, ◌⊎◌, inl, inr, refl, sym, ap, subst, true, false, List, [], ◌∷◌, Option, none, some,
  arith, Bool-cases,
}
use keymapper_rs.Common.Str.{Str, eq_ignore_ascii_case}
use keymapper_rs.Common.Keyboard.{
  KeyboardInfo, KeyboardSpecifier, str_matches_ignore_case, mismatches, port_mismatches, matches,
  any_matches, filter_matching, filter_keyboards_by_specifiers,
}

-- The element stands in the list.
abbrev pub In : {A : Type 0} → A → List A → Type 0
In x [] = ⊥
In x (y ∷ ys) = (x ≡ y) ⊎ In x ys

-- A pattern, if it is given, is the value up to ASCII case.
abbrev pub Fits : Option Str → Option Str → Type 0
Fits none value = Unit
Fits (some p) none = ⊥
Fits (some p) (some v) = eq_ignore_ascii_case p v ≡ true

-- The specifier fits the keyboard in every field it gives.
abbrev pub FitsAll : KeyboardSpecifier → KeyboardInfo → Type 0
FitsAll s kb =
    Fits s.name (some kb.name)
    × Fits s.vendor (some kb.vendor)
    × Fits s.model (some kb.model)
    × Fits s.port kb.port

mismatches_iff : (p : Option Str) (v : Str) → (mismatches p v ≡ false) ↔ Fits p (some v)
unfolding mismatches str_matches_ignore_case
mismatches_iff none v = (λ h. tt, λ h. refl)
mismatches_iff (some p) v = ground arith

port_mismatches_iff : (p v : Option Str) → (port_mismatches p v ≡ false) ↔ Fits p v
unfolding port_mismatches str_matches_ignore_case
port_mismatches_iff none v = (λ h. tt, λ h. refl)
port_mismatches_iff (some p) none = (λ h. cc, λ h. absurd h)
port_mismatches_iff (some p) (some v) = ground arith

pub matches_iff : (s : KeyboardSpecifier) (kb : KeyboardInfo) → (matches s kb ≡ true) ↔ FitsAll s kb
unfolding matches
matches_iff s kb = (
  λ h. (
    (mismatches_iff s.name kb.name).0 (ground (arith, h)),
    (mismatches_iff s.vendor kb.vendor).0 (ground (arith, h)),
    (mismatches_iff s.model kb.model).0 (ground (arith, h)),
    (port_mismatches_iff s.port kb.port).0 (ground (arith, h)),
  ),
  λ (name, vendor, model, port).
      rw
        (
          (mismatches_iff s.name kb.name).1 name,
          (mismatches_iff s.vendor kb.vendor).1 vendor,
          (mismatches_iff s.model kb.model).1 model,
          (port_mismatches_iff s.port kb.port).1 port,
          matches,
        )
        refl,
)

-- Some specifier of the list fits the keyboard.
abbrev pub Selected : List KeyboardSpecifier → KeyboardInfo → Type 0
Selected specs kb = (s : KeyboardSpecifier) × In s specs × FitsAll s kb

any_matches_iff :
    (specs : List KeyboardSpecifier) (kb : KeyboardInfo)
    → (any_matches specs kb ≡ true) ↔ Selected specs kb
unfolding any_matches
any_matches_iff [] kb = (λ h. cc, λ (s, i, f). absurd i)
any_matches_iff (spec ∷ specs) kb = (
  λ h. elim (Bool-cases (matches spec kb)) [
    | inl fits ↦ (spec, inl refl, (matches_iff spec kb).0 fits)
    | inr not_this ↦
        let (s, i, f) = (any_matches_iff specs kb).0 (ground (arith, h, not_this)) in (s, inr i, f)
  ],
  λ (s, i, f). elim i [
    | inl e ↦ ground (arith, (matches_iff spec kb).1 (subst (λ x. FitsAll x kb) e f))
    | inr j ↦ ground (arith, (any_matches_iff specs kb).1 (s, j, f))
  ],
)

In-filter_matching :
    (kb : KeyboardInfo) (kbs : List KeyboardInfo) (specs : List KeyboardSpecifier)
    → In kb (filter_matching kbs specs) ↔ (In kb kbs × (any_matches specs kb ≡ true))
unfolding filter_matching
In-filter_matching kb [] specs = (λ h. absurd h, λ (i, m). absurd i)
In-filter_matching kb (k ∷ kbs) specs =
    let (there, back) = In-filter_matching kb kbs specs in
    elim (Bool-cases (any_matches specs k)) [
      | inl keeps ↦
          rw (keeps, filter_matching)
            (
              λ i. elim i [
                | inl e ↦ (inl e, subst (λ x. any_matches specs x ≡ true) (sym e) keeps)
                | inr j ↦ (inr (there j).0, (there j).1)
              ],
              λ (i, m). elim i [ inl e ↦ inl e | inr j ↦ inr (back (j, m)) ],
            )
      | inr drops ↦
          rw (drops, filter_matching)
            (
              λ j. (inr (there j).0, (there j).1),
              λ (i, m). elim i [
                | inl e ↦ absurd (ground (arith, m, drops, ap (any_matches specs) e))
                | inr j ↦ back (j, m)
              ],
            )
    ]

-- The filter of the keyboards keeps exactly those that fit, in every field that it gives, some
-- specifier of the list; without a list, or with an empty one, it keeps all.
pub In-filter_keyboards_by_specifiers_iff :
    (kb : KeyboardInfo) (kbs : List KeyboardInfo) (specs : List KeyboardSpecifier)
    → (In kb (filter_keyboards_by_specifiers kbs (some specs))
        ↔ (In kb kbs × ((specs ≡ []) ⊎ Selected specs kb)))
      × (filter_keyboards_by_specifiers kbs none ≡ kbs)
unfolding filter_keyboards_by_specifiers
In-filter_keyboards_by_specifiers_iff kb kbs [] = ((λ i. (i, inl refl), λ h. h.0), refl)
In-filter_keyboards_by_specifiers_iff kb kbs (spec ∷ specs) =
    let (there, back) = In-filter_matching kb kbs (spec ∷ specs) in
    let (selects, selected) = any_matches_iff (spec ∷ specs) kb in
    (
      (
        λ i. ((there i).0, inr (selects (there i).1)),
        λ (i, s). elim s [ inl e ↦ cc | inr fits ↦ back (i, selected fits) ],
      ),
      refl,
    )
