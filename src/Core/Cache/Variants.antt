-- ===== src/Core/Cache/Variants.antt =====
-- src/keymap_core/mapping_cache.rs, `expand_modifier_bits`: its order, and what its masks mean for the
-- keys that are held.
use keymapper_rs.Prelude.{
  ℕ, ◌+◌, ◌^◌, ◌<◌, ◌≡◌, ◌⊎◌, inl, inr, refl, sym, subst, true, List, [], ◌∷◌, some, arith, bit_or,
  insert, contains, ℕ_discrete, Bool-cases, All,
}
use keymapper_rs.Bits.{has, has-bit_or, has-pow}
use keymapper_rs.Common.HidUsage.{HidUsage, hid_usage_to_modifier_bit}
use keymapper_rs.Core.Cache.{
  choice, insert_bits, combine, expand, insert_sorted, sort, expand_modifier_bits, compile_bits,
  compile_modifier_bits, add_bit,
}
use keymapper_rs.Core.Cache.Expand.{In, IsSide, Chooses, In-sort, In-expand_modifier_bits_iff}

abbrev NoDup : List ℕ → Type 0
NoDup [] = Unit
NoDup (x ∷ xs) = (In x xs → ⊥) × NoDup xs

contains_of_In : (x : ℕ) (ys : List ℕ) → In x ys → contains ℕ_discrete x ys ≡ true
unfolding contains
contains_of_In x [] i = absurd i
contains_of_In x (y ∷ ys) (inl e) = ground (arith, e)
contains_of_In x (y ∷ ys) (inr i) = ground (arith, contains_of_In x ys i)

insert-NoDup : (x : ℕ) (ys : List ℕ) → NoDup ys → NoDup (insert ℕ_discrete x ys)
unfolding insert
insert-NoDup x ys d = elim (Bool-cases (contains ℕ_discrete x ys)) [
  | inl old ↦ rw (old, insert) d
  | inr new ↦ rw (new, insert) (λ i. cc (contains_of_In x ys i), d)
]

insert_bits-NoDup : (acc : ℕ) (bits next : List ℕ) → NoDup next → NoDup (insert_bits acc bits next)
unfolding insert_bits
insert_bits-NoDup acc [] next d = d
insert_bits-NoDup acc (bit ∷ bits) next d =
    insert_bits-NoDup acc bits _ (insert-NoDup (bit_or acc (2 ^ bit)) next d)

combine-NoDup : (accs bits next : List ℕ) → NoDup next → NoDup (combine accs bits next)
unfolding combine
combine-NoDup [] bits next d = d
combine-NoDup (acc ∷ accs) bits next d =
    combine-NoDup accs bits _ (insert_bits-NoDup acc bits next d)

expand-NoDup : (us : List HidUsage) (results : List ℕ) → NoDup results → NoDup (expand us results)
unfolding expand
expand-NoDup [] results d = d
expand-NoDup (u ∷ us) results d = expand-NoDup us _ (combine-NoDup results (choice u) [] tt)

-- Ascending, and so without duplicates.
abbrev pub IsAscending : List ℕ → Type 0
IsAscending [] = Unit
IsAscending (x ∷ []) = Unit
IsAscending (x ∷ y ∷ ys) = (x < y) × IsAscending (y ∷ ys)

insert_sorted-IsAscending :
    (x : ℕ) (ys : List ℕ) → (In x ys → ⊥) → IsAscending ys → IsAscending (insert_sorted x ys)
unfolding insert_sorted
insert_sorted-IsAscending x [] new h = tt
insert_sorted-IsAscending x (y ∷ []) new h = ground arith
insert_sorted-IsAscending x (y ∷ z ∷ ys) new h =
    ground (
      arith,
      insert_sorted-IsAscending x (z ∷ ys) (λ i. new (inr i)) h.1,
      λ (e : x ≡ y). new (inl e),
    )

sort-IsAscending : (ys : List ℕ) → NoDup ys → IsAscending (sort ys)
unfolding sort
sort-IsAscending [] d = tt
sort-IsAscending (y ∷ ys) d =
    insert_sorted-IsAscending y (sort ys) (λ i. d.0 ((In-sort y ys).0 i)) (sort-IsAscending ys d.1)

-- The compiled masks are in ascending order, so none of them stands twice.
pub expand_modifier_bits-IsAscending :
    (modifiers : List HidUsage) → IsAscending (expand_modifier_bits modifiers)
unfolding expand_modifier_bits
expand_modifier_bits-IsAscending [] = tt
expand_modifier_bits-IsAscending (u ∷ us) =
    sort-IsAscending (expand (u ∷ us) (insert ℕ_discrete 0 []))
      (expand-NoDup (u ∷ us) (insert ℕ_discrete 0 []) (insert-NoDup 0 [] tt))

-- A modifier key has a bit.
abbrev pub IsModifier : HidUsage → Type 0
IsModifier u = (b : ℕ) × (hid_usage_to_modifier_bit u ≡ some b)

-- The mask holds the modifier: its own bit, or for a left one the bit of the right side.
abbrev pub Holds : ℕ → HidUsage → Type 0
Holds m u =
    (b : ℕ) × (hid_usage_to_modifier_bit u ≡ some b)
    × ((has m b ≡ true) ⊎ ((b < 4) × (has m (b + 4) ≡ true)))

Chooses-mono :
    (us : List HidUsage) (acc m i : ℕ) → Chooses us acc m → has acc i ≡ true → has m i ≡ true
Chooses-mono [] acc m i c h = rw c h
Chooses-mono (u ∷ us) acc m i (bit, k, c) h =
    Chooses-mono us (bit_or acc (2 ^ bit)) m i c (ground (arith, h, has-bit_or acc (2 ^ bit) i))

-- Every modifier of a trigger is held in each of its masks, on one of its sides.
pub Chooses-Holds :
    (us : List HidUsage) (acc m : ℕ) → All IsModifier us → Chooses us acc m → All (Holds m) us
Chooses-Holds [] acc m all c = tt
Chooses-Holds (u ∷ us) acc m ((b, e), all) (bit, k, c) =
    let set : has m bit ≡ true =
      Chooses-mono us (bit_or acc (2 ^ bit)) m bit c
        (ground (arith, has-bit_or acc (2 ^ bit) bit, has-pow bit bit)) in
    (
      (
        b,
        e,
        elim (subst (λ o. IsSide o bit) e k) [
          | inl own ↦ inl (subst (λ x. has m x ≡ true) own set)
          | inr (left, other) ↦ inr (left, subst (λ x. has m x ≡ true) other set)
        ],
      ),
      Chooses-Holds us (bit_or acc (2 ^ bit)) m all c,
    )

-- The keys of a trigger as they are written are one of its variants.
Chooses-compile_bits :
    (us : List HidUsage) (acc : ℕ) → All IsModifier us → Chooses us acc (compile_bits acc us)
unfolding compile_bits add_bit
Chooses-compile_bits [] acc all = refl
Chooses-compile_bits (u ∷ us) acc ((b, e), all) = (
  b,
  subst (λ o. IsSide o b) (sym e) (inl refl),
  rw (e, add_bit) (Chooses-compile_bits us (bit_or acc (2 ^ b)) all),
)

-- If every modifier of a trigger is a modifier key, then each compiled mask holds every modifier on
-- one of its sides, and the mask of the keys as they are written is among the compiled ones.
pub expand_modifier_bits-Holds :
    (modifiers : List HidUsage)
    → All IsModifier modifiers
    → ((m : ℕ) → In m (expand_modifier_bits modifiers) → All (Holds m) modifiers)
      × In (compile_modifier_bits modifiers) (expand_modifier_bits modifiers)
unfolding compile_modifier_bits
expand_modifier_bits-Holds modifiers all = (
  λ m i. Chooses-Holds modifiers 0 m all ((In-expand_modifier_bits_iff modifiers m).0 i),
  (In-expand_modifier_bits_iff modifiers _).1 (Chooses-compile_bits modifiers 0 all),
)
