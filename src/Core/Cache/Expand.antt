-- ===== src/Core/Cache/Expand.antt =====
-- src/keymap_core/mapping_cache.rs, `expand_modifier_bits`: its elements, and the choice of a side
-- for each modifier.
use keymapper_rs.Prelude.{ltb→lt}
use keymapper_rs.Prelude.{
  ℕ, ◌+◌, ◌^◌, ◌<◌, ◌≡◌, ◌↔◌, ◌⊎◌, inl, inr, refl, ap, sym, ◌∙◌, subst, true, List, [], ◌∷◌, arith,
  bit_or, insert, contains, ℕ_discrete, Bool-cases, Option, none, some, ltb,
}
use keymapper_rs.Common.HidUsage.{HidUsage, hid_usage_to_modifier_bit}
use keymapper_rs.Core.Cache.{
  choice, choice_of, insert_bits, combine, expand, insert_sorted, sort, expand_modifier_bits,
}

-- `x` is an element of the list.
abbrev pub In : ℕ → List ℕ → Type 0
In x [] = ⊥
In x (y ∷ ys) = (x ≡ y) ⊎ In x ys

-- A modifier's own bit, or for one of the left, with a bit below 4, that of its right side. A key that
-- is no modifier stands for bit 0.
abbrev pub IsSide : Option ℕ → ℕ → Type 0
IsSide none bit = bit ≡ 0
IsSide (some own) bit = (bit ≡ own) ⊎ ((own < 4) × (bit ≡ own + 4))

-- The mask `m` is `acc` with one bit for each modifier, of either side that it may stand for.
abbrev pub Chooses : List HidUsage → ℕ → ℕ → Type 0
Chooses [] acc m = m ≡ acc
Chooses (u ∷ us) acc m =
    (bit : ℕ) × IsSide (hid_usage_to_modifier_bit u) bit × Chooses us (bit_or acc (2 ^ bit)) m

-- `x` is `acc` with one of the bits.
abbrev FromBit : ℕ → ℕ → List ℕ → Type 0
FromBit x acc bits = (bit : ℕ) × In bit bits × (x ≡ bit_or acc (2 ^ bit))

-- `x` is one of the masks with one of the bits.
abbrev FromMask : ℕ → List ℕ → List ℕ → Type 0
FromMask x accs bits = (acc : ℕ) × In acc accs × FromBit x acc bits

-- The bits of a choice are the sides of the modifier.
In-choice_of : (own : Option ℕ) (bit : ℕ) → In bit (choice_of own) ↔ IsSide own bit
unfolding choice_of
In-choice_of none bit = (λ h. elim h [ inl e ↦ e | inr nothing ↦ absurd nothing ], λ e. inl e)
In-choice_of (some own) bit = elim (Bool-cases (ltb own 4)) [
  | inl left ↦
      rw (left, choice_of)
        (
          λ h. elim h [
            | inl e ↦ inl e
            | inr (inl e) ↦ inr (ltb→lt own 4 left, e)
            | inr (inr nothing) ↦ absurd nothing
          ],
          λ h. elim h [ inl e ↦ inl e | inr (lt, e) ↦ inr (inl e) ],
        )
  | inr right ↦
      rw (right, choice_of)
        (
          λ h. elim h [ inl e ↦ inl e | inr nothing ↦ absurd nothing ],
          λ h. elim h [ inl e ↦ inl e | inr (lt, e) ↦ ground (arith, right, lt) ],
        )
]

In-choice : (u : HidUsage) (bit : ℕ) → In bit (choice u) ↔ IsSide (hid_usage_to_modifier_bit u) bit
unfolding choice
In-choice u bit = In-choice_of (hid_usage_to_modifier_bit u) bit

In-of_contains : (x : ℕ) (ys : List ℕ) → contains ℕ_discrete x ys ≡ true → In x ys
unfolding contains
In-of_contains x [] h = cc
In-of_contains x (y ∷ ys) h = elim (ℕ_discrete x y) [
  | yes p ↦ inl p
  | no n ↦ inr (In-of_contains x ys (ground (arith, h, n)))
]

In-insert : (x y : ℕ) (ys : List ℕ) → In x (insert ℕ_discrete y ys) ↔ ((x ≡ y) ⊎ In x ys)
unfolding insert
In-insert x y ys = elim (Bool-cases (contains ℕ_discrete y ys)) [
  | inl old ↦
      rw (old, insert)
        (
          λ h. inr h,
          λ h. elim h [
            | inl e ↦ subst (λ z. In z ys) (sym e) (In-of_contains y ys old)
            | inr i ↦ i
          ],
        )
  | inr new ↦ rw (new, insert) (λ h. h, λ h. h)
]

insert_bits_forth :
    (x acc : ℕ) (bits next : List ℕ)
    → In x (insert_bits acc bits next)
    → FromBit x acc bits ⊎ In x next
unfolding insert_bits
insert_bits_forth x acc [] next h = inr h
insert_bits_forth x acc (bit ∷ bits) next h =
    elim (insert_bits_forth x acc bits (insert ℕ_discrete (bit_or acc (2 ^ bit)) next) h) [
      | inl (b, i, e) ↦ inl (b, inr i, e)
      | inr i ↦ elim ((In-insert x (bit_or acc (2 ^ bit)) next).0 i) [
        | inl e ↦ inl (bit, inl refl, e)
        | inr j ↦ inr j
      ]
    ]

insert_bits_back :
    (x acc : ℕ) (bits next : List ℕ)
    → FromBit x acc bits ⊎ In x next
    → In x (insert_bits acc bits next)
unfolding insert_bits
insert_bits_back x acc [] next (inl (b, i, e)) = absurd i
insert_bits_back x acc [] next (inr i) = i
insert_bits_back x acc (bit ∷ bits) next (inl (b, inl p, e)) =
    insert_bits_back x acc bits (insert ℕ_discrete (bit_or acc (2 ^ bit)) next) (
      inr (
        (In-insert x (bit_or acc (2 ^ bit)) next).1
          (inl (e ∙ ap (λ (c : ℕ). bit_or acc (2 ^ c)) p))))
insert_bits_back x acc (bit ∷ bits) next (inl (b, inr i, e)) =
    insert_bits_back x acc bits (insert ℕ_discrete (bit_or acc (2 ^ bit)) next) (inl (b, i, e))
insert_bits_back x acc (bit ∷ bits) next (inr i) =
    insert_bits_back x acc bits (insert ℕ_discrete (bit_or acc (2 ^ bit)) next)
      (inr ((In-insert x (bit_or acc (2 ^ bit)) next).1 (inr i)))

combine_forth :
    (x : ℕ) (accs bits next : List ℕ)
    → In x (combine accs bits next)
    → FromMask x accs bits ⊎ In x next
unfolding combine
combine_forth x [] bits next h = inr h
combine_forth x (acc ∷ accs) bits next h =
    elim (combine_forth x accs bits (insert_bits acc bits next) h) [
      | inl (a, i, e) ↦ inl (a, inr i, e)
      | inr i ↦ elim (insert_bits_forth x acc bits next i) [
        | inl e ↦ inl (acc, inl refl, e)
        | inr j ↦ inr j
      ]
    ]

combine_back :
    (x : ℕ) (accs bits next : List ℕ)
    → FromMask x accs bits ⊎ In x next
    → In x (combine accs bits next)
unfolding combine
combine_back x [] bits next (inl (a, i, e)) = absurd i
combine_back x [] bits next (inr i) = i
combine_back x (acc ∷ accs) bits next (inl (a, inl p, e)) =
    combine_back x accs bits (insert_bits acc bits next)
      (inr (insert_bits_back x acc bits next (inl (subst (λ c. FromBit x c bits) p e))))
combine_back x (acc ∷ accs) bits next (inl (a, inr i, e)) =
    combine_back x accs bits (insert_bits acc bits next) (inl (a, i, e))
combine_back x (acc ∷ accs) bits next (inr i) =
    combine_back x accs bits (insert_bits acc bits next)
      (inr (insert_bits_back x acc bits next (inr i)))

expand_forth :
    (us : List HidUsage) (results : List ℕ) (m : ℕ)
    → In m (expand us results)
    → (acc : ℕ) × In acc results × Chooses us acc m
unfolding expand
expand_forth [] results m h = (m, h, refl)
expand_forth (u ∷ us) results m h =
    let (x, i, c) = expand_forth us (combine results (choice u) []) m h in
    elim (combine_forth x results (choice u) [] i) [
      | inl (acc, j, (bit, k, e)) ↦
          (acc, j, (bit, (In-choice u bit).0 k, subst (λ y. Chooses us y m) e c))
      | inr nothing ↦ absurd nothing
    ]

expand_back :
    (us : List HidUsage) (results : List ℕ) (m : ℕ)
    → ((acc : ℕ) × In acc results × Chooses us acc m)
    → In m (expand us results)
unfolding expand
expand_back [] results m (acc, i, e) = subst (λ x. In x results) (sym e) i
expand_back (u ∷ us) results m (acc, i, (bit, j, c)) =
    expand_back us (combine results (choice u) []) m (
      bit_or acc (2 ^ bit),
      combine_back (bit_or acc (2 ^ bit)) results (choice u) []
          (inl (acc, i, (bit, (In-choice u bit).1 j, refl))),
      c,
    )

pub In-insert_sorted : (x y : ℕ) (ys : List ℕ) → In x (insert_sorted y ys) ↔ ((x ≡ y) ⊎ In x ys)
unfolding insert_sorted
In-insert_sorted x y [] = (λ h. h, λ h. h)
In-insert_sorted x y (z ∷ ys) = ground (arith, In-insert_sorted x y ys)

pub In-sort : (x : ℕ) (ys : List ℕ) → In x (sort ys) ↔ In x ys
unfolding sort
In-sort x [] = (λ h. h, λ h. h)
In-sort x (y ∷ ys) = ground (arith, In-sort x ys, In-insert_sorted x y (sort ys))

-- The compiled masks of a trigger are exactly those that have, for each of its modifiers, its own bit
-- or, if it is one of the left, that of its right side, and no other bit. A key that is no modifier
-- counts as the left Control there, but never as the right one.
pub In-expand_modifier_bits_iff :
    (modifiers : List HidUsage) (m : ℕ)
    → In m (expand_modifier_bits modifiers) ↔ Chooses modifiers 0 m
unfolding expand_modifier_bits
In-expand_modifier_bits_iff [] m =
    (λ h. elim h [ inl e ↦ e | inr nothing ↦ absurd nothing ], λ e. inl e)
In-expand_modifier_bits_iff (u ∷ us) m = (
  λ h.
      let (acc, i, c) = expand_forth (u ∷ us) (insert ℕ_discrete 0 []) m ((In-sort m _).0 h) in
      elim ((In-insert acc 0 []).0 i) [
        | inl e ↦ subst (λ a. Chooses (u ∷ us) a m) e c
        | inr nothing ↦ absurd nothing
      ],
  λ c.
      (In-sort m _).1
        (expand_back (u ∷ us) (insert ℕ_discrete 0 []) m (0, (In-insert 0 0 []).1 (inl refl), c)),
)
