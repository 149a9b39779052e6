-- ===== src/Platform/Linux/Output/Masks.antt =====
-- src/platform/linux/mapping/device.rs: the key codes of the bits of a mask.
use keymapper_rs.Prelude.{
  ℕ, All, subst, ◌≡◌, refl, sym, ap, ◌∙◌, Bool, true, false, ◌&&◌, ◌||◌, List, [], ◌∷◌, arith, ◌==◌,
  ==_iff, contains, ℕ_discrete, Option, none, some, entries_pass, map_get-entries_pass,
  Option-cases, inl, inr, Bool-cases,
}
use keymapper_rs.Bits.{has, bit_and_pow}
use keymapper_rs.Common.HidUsage.{HidUsage, hid_usage_to_modifier_bit}
use keymapper_rs.Platform.Linux.Keycode.{native_arms, from_native}
use keymapper_rs.Platform.Linux.Keycode.Usage.{keycode_to_hid_usage, to_hid_usage}
use keymapper_rs.Platform.Linux.Output.{
  bits, modifier_bit_to_keycode, set_code, consumed_code, is_modifier,
}
use keymapper_rs.Platform.Linux.Output.State.{member}

-- The bit of the modifier that a key code stands for.
abbrev pub bit_of_code : ℕ → Option ℕ
bit_of_code c = elim (keycode_to_hid_usage c) [
  | none ↦ none
  | some usage ↦ hid_usage_to_modifier_bit usage
]

-- A key code is that of a modifier whose bit the mask has.
abbrev pub of_mask : ℕ → ℕ → Bool
of_mask m c = elim (bit_of_code c) [ none ↦ false | some bit ↦ has m bit ]

-- The codes of the bits of a mask.
abbrev pub set_codes : ℕ → List ℕ → List ℕ
set_codes m [] = []
set_codes m (bit ∷ rest) = elim (set_code m bit) [
  | none ↦ set_codes m rest
  | some code ↦ code ∷ set_codes m rest
]

pub consumed_code-eq : (m bit : ℕ) → consumed_code m bit ≡ set_code m bit
unfolding consumed_code set_code
consumed_code-eq m bit = ground (arith, bit_and_pow m bit)

-- The eight codes, in the order of the bits.
abbrev pub codes : List ℕ
codes = 29 ∷ 42 ∷ 56 ∷ 125 ∷ 97 ∷ 54 ∷ 100 ∷ 126 ∷ []

abbrev of_mask_at : ℕ → Option ℕ → Bool
of_mask_at m none = false
of_mask_at m (some bit) = has m bit

abbrev is_none : Option ℕ → Bool
is_none none = true
is_none (some _) = false

arms_pass :
    entries_pass ℕ_discrete
      (λ c k. is_none (hid_usage_to_modifier_bit (to_hid_usage k)) || member c codes)
      native_arms
    ≡ true
unfolding entries_pass native_arms to_hid_usage hid_usage_to_modifier_bit contains ℕ_discrete
arms_pass = refl

-- Another code is not that of a modifier.
other_code : (c : ℕ) → member c codes ≡ false → bit_of_code c ≡ none
unfolding keycode_to_hid_usage from_native
other_code c h = elim (Option-cases (from_native c)) [
  | inl absent ↦ rw (absent, bit_of_code, keycode_to_hid_usage) refl
  | inr (k, found) ↦
      let pass =
        map_get-entries_pass ℕ_discrete
          (λ c k. is_none (hid_usage_to_modifier_bit (to_hid_usage k)) || member c codes)
          native_arms c k arms_pass found in
      elim (Option-cases (hid_usage_to_modifier_bit (to_hid_usage k))) [
        | inl none_bit ↦ rw (found, bit_of_code, keycode_to_hid_usage) none_bit
        | inr (b, some_bit) ↦ absurd (clash _ b some_bit pass)
      ]
]
  where
    clash : (o : Option ℕ) (b : ℕ) → o ≡ some b → (is_none o || member c codes) ≡ true → ⊥
    clash none b e p = cc e
    clash (some x) b e p = cc (h, p)

-- The code is that of the bit, and the mask has the bit.
abbrev pub is_set : ℕ → ℕ → ℕ → Bool
is_set m c bit =
    has m bit
    && elim (modifier_bit_to_keycode bit) [ none ↦ false | some code ↦ member c (code ∷ []) ]

abbrev pub any_set : ℕ → ℕ → List ℕ → Bool
any_set m c [] = false
any_set m c (bit ∷ rest) = is_set m c bit || any_set m c rest

member-set_codes_any : (m c : ℕ) (bs : List ℕ) → member c (set_codes m bs) ≡ any_set m c bs
unfolding contains ℕ_discrete set_code
member-set_codes_any m c [] = refl
member-set_codes_any m c (bit ∷ rest) = ground (arith, member-set_codes_any m c rest)

-- What holds of each code of a list holds of a code in the list.
member-All : (P : ℕ → Type 0) (c : ℕ) (cs : List ℕ) → All P cs → member c cs ≡ true → P c
unfolding contains ℕ_discrete
member-All P c [] all h = cc h
member-All P c (x ∷ cs) (p, all) h = elim (Bool-cases (c == x)) [
  | inl same ↦ subst P (sym ((==_iff c x).0 same)) p
  | inr other ↦ member-All P c cs all (ground (arith, h, other))
]

AnySet : ℕ → ℕ → Type 0
AnySet m c = any_set m c bits ≡ of_mask m c

each_code : (m : ℕ) → All (AnySet m) codes
unfolding AnySet keycode_to_hid_usage hid_usage_to_modifier_bit modifier_bit_to_keycode contains
    ℕ_discrete
each_code m = ground arith

no_code : (m c : ℕ) → member c codes ≡ false → any_set m c bits ≡ false
unfolding modifier_bit_to_keycode contains ℕ_discrete
no_code m c h = ground (arith, h)

pub any_set_all : (m c : ℕ) → any_set m c bits ≡ of_mask m c
unfolding AnySet
any_set_all m c = elim (Bool-cases (member c codes)) [
  | inl modifier ↦ member-All (AnySet m) c codes (each_code m) modifier
  | inr other ↦ no_code m c other ∙ sym (ap (of_mask_at m) (other_code c other))
]

-- The codes of the bits of a mask are those of the modifiers whose bits it has.
pub member-set_codes : (m c : ℕ) → member c (set_codes m bits) ≡ of_mask m c
member-set_codes m c = member-set_codes_any m c bits ∙ any_set_all m c

IsOne : ℕ → Type 0
IsOne c = is_modifier (keycode_to_hid_usage c) ≡ member c codes

each_is_modifier : All IsOne codes
unfolding IsOne is_modifier keycode_to_hid_usage hid_usage_to_modifier_bit contains ℕ_discrete
each_is_modifier = (refl, (refl, (refl, (refl, (refl, (refl, (refl, (refl, tt))))))))

-- A key code is that of a modifier exactly when it is one of the eight.
pub is_modifier-member : (c : ℕ) → is_modifier (keycode_to_hid_usage c) ≡ member c codes
unfolding is_modifier IsOne
is_modifier-member c = elim (Bool-cases (member c codes)) [
  | inl modifier ↦ member-All IsOne c codes each_is_modifier modifier
  | inr other ↦ has_no_bit (keycode_to_hid_usage c) (other_code c other) ∙ sym other
]
  where
    has_no_bit :
        (usage : Option HidUsage)
        → (elim usage [ none ↦ none | some u ↦ hid_usage_to_modifier_bit u ]) ≡ none
        → is_modifier usage ≡ false
    has_no_bit none h = refl
    has_no_bit (some u) h = rw (h, is_modifier) refl
