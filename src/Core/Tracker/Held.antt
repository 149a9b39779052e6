-- ===== src/Core/Tracker/Held.antt =====
-- The map of held output modifiers under `consume_held`, `map_upsert` and `map_remove`.
use keymapper_rs.Prelude.{inl, inr}
use keymapper_rs.Prelude.{Bool-cases, same_self}
use keymapper_rs.Prelude.{
  ℕ, ◌<◌, ◌≡◌, refl, ap, ◌⊎◌, inl, true, not, ◌&&◌, List, [], ◌∷◌, Option, none, some, bit_and,
  bit_or, ◌==◌, if◌then◌else◌, arith, map_get, map_upsert, map_remove, map_get-map_upsert,
  map_get-map_remove,
}
use keymapper_rs.Bits.{has, bit_not, has-bit_or, has-bit_and, has_clear}
use keymapper_rs.Core.Tracker.{consume_held}

-- What `consume_held` leaves of a mask.
abbrev pub unhit : ℕ → ℕ → ℕ
unhit modifiers mask = bit_and mask (bit_not (bit_and mask modifiers))

pub has-unhit :
    (modifiers mask i : ℕ)
    → i < 8
    → has (unhit modifiers mask) i ≡ (has mask i && not (has modifiers i))
has-unhit modifiers mask i h =
    ground (arith, has_clear mask (bit_and mask modifiers) i h, has-bit_and mask modifiers i)

abbrev pub left_of : ℕ → Option ℕ → Option ℕ
left_of modifiers none = none
left_of modifiers (some mask) =
    if unhit modifiers mask == 0 then none else some (unhit modifiers mask)

module _ {ℓ} {K : Type ℓ} (dec : Discrete K) where
  -- No key has two entries.
  abbrev pub Distinct : List (K × ℕ) → Type 0
  Distinct [] = Unit
  Distinct ((k, m) ∷ es) = (map_get dec k es ≡ none) × Distinct es

  pub map_get-consume_held :
      (modifiers : ℕ) (es : List (K × ℕ)) (held : ℕ) (k : K)
      → Distinct es
      → map_get dec k (consume_held modifiers es held).0 ≡ left_of modifiers (map_get dec k es)
  unfolding map_get consume_held
  map_get-consume_held modifiers [] held k d = refl
  map_get-consume_held modifiers ((j, mask) ∷ es) held k d = ground (
    arith,
    d.0,
    ap (λ (x : K). map_get dec x es) {x = k} {y = j},
    map_get-consume_held modifiers es (bit_or held (bit_and mask modifiers)) k d.1,
  )

  pub consume_held-Distinct :
      (modifiers : ℕ) (es : List (K × ℕ)) (held : ℕ)
      → Distinct es
      → Distinct (consume_held modifiers es held).0
  unfolding consume_held
  consume_held-Distinct modifiers [] held d = tt
  consume_held-Distinct modifiers ((j, mask) ∷ es) held d = ground (
    arith,
    map_get-consume_held modifiers es (bit_or held (bit_and mask modifiers)) j d.1,
    consume_held-Distinct modifiers es (bit_or held (bit_and mask modifiers)) d.1,
  )

  -- The bits that were collected before stay collected.
  consume_held_mono :
      (modifiers : ℕ) (es : List (K × ℕ)) (held i : ℕ)
      → has held i ≡ true
      → has (consume_held modifiers es held).1 i ≡ true
  unfolding consume_held
  consume_held_mono modifiers [] held i h = h
  consume_held_mono modifiers ((j, mask) ∷ es) held i h =
      consume_held_mono modifiers es (bit_or held (bit_and mask modifiers)) i
        (ground (arith, has-bit_or held (bit_and mask modifiers) i))

  -- Every held bit of the modifiers is collected.
  pub consume_held_hits :
      (modifiers : ℕ) (es : List (K × ℕ)) (held i : ℕ) (k : K) (mask : ℕ)
      → map_get dec k es ≡ some mask
      → has mask i ≡ true
      → has modifiers i ≡ true
      → has (consume_held modifiers es held).1 i ≡ true
  unfolding map_get consume_held
  consume_held_hits modifiers [] held i k mask e h g = cc
  consume_held_hits modifiers ((j, m) ∷ es) held i k mask e h g = ground (
    arith,
    consume_held_mono modifiers es (bit_or held (bit_and m modifiers)) i,
    has-bit_or held (bit_and m modifiers) i,
    has-bit_and m modifiers i,
    consume_held_hits modifiers es (bit_or held (bit_and m modifiers)) i k mask,
  )

  -- Nothing else is collected.
  pub consume_held_only :
      (modifiers : ℕ) (es : List (K × ℕ)) (held i : ℕ)
      → Distinct es
      → has (consume_held modifiers es held).1 i ≡ true
      → (has held i ≡ true)
        ⊎ ((k : K) × (m : ℕ) × (map_get dec k es ≡ some m)
            × (has m i ≡ true)
            × (has modifiers i ≡ true))
  unfolding consume_held map_get
  consume_held_only modifiers [] held i d h = inl h
  consume_held_only modifiers ((j, m) ∷ es) held i d h =
      elim (consume_held_only modifiers es (bit_or held (bit_and m modifiers)) i d.1 h) [
        | inl set ↦ elim (Bool-cases (has held i)) [
          | inl old ↦ inl old
          | inr new ↦
              let both : (has m i ≡ true) × (has modifiers i ≡ true) =
                ground (
                  arith,
                  set,
                  has-bit_or held (bit_and m modifiers) i,
                  has-bit_and m modifiers i,
                ) in
              inr (j, m, ground (arith, same_self dec j), both.0, both.1)
        ]
        | inr (k, m', entry, bit, hit) ↦ inr (
          k,
          m',
          ground (arith, entry, d.0, ap (λ (x : K). map_get dec x es) {x = k} {y = j}),
          bit,
          hit,
        )
      ]

  pub map_upsert-Distinct :
      (k : K) (f : ℕ → ℕ) (v : ℕ) (es : List (K × ℕ))
      → Distinct es
      → Distinct (map_upsert dec k f v es)
  unfolding map_upsert map_get
  map_upsert-Distinct k f v [] d = (refl, tt)
  map_upsert-Distinct k f v ((j, m) ∷ es) d =
      ground (arith, map_get-map_upsert dec j k f v es, map_upsert-Distinct k f v es d.1)

  pub map_remove-Distinct :
      (k : K) (es : List (K × ℕ)) → Distinct es → Distinct (map_remove dec k es)
  unfolding map_remove
  map_remove-Distinct k [] d = tt
  map_remove-Distinct k ((j, m) ∷ es) d =
      ground (arith, map_get-map_remove dec j k es, map_remove-Distinct k es d.1)
