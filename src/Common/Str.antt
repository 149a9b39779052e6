-- ===== src/Common/Str.antt =====
-- `&str` and `String` as the list of their bytes.
use keymapper_rs.Prelude.{ℕ_discrete}
use Prim.Native.Char.{code}
use Prim.Native.String.{String}
use keymapper_rs.Prelude.{
  ℕ, ◌+◌, ◌≡◌, refl, Bool, true, false, ◌&&◌, List, [], ◌∷◌, arith, ◌==◌, ltb, if◌then◌else◌, ap₂,
}

abbrev pub Str : Type 0
Str = List ℕ

-- The bytes of an ASCII literal.
abbrev pub bytes : String → Str
bytes String.[] = []
bytes (String.◌∷◌ c s) = code c ∷ bytes s

unfoldable pub str_eq : Str → Str → Bool
str_eq [] [] = true
str_eq [] (d ∷ t) = false
str_eq (c ∷ s) [] = false
str_eq (c ∷ s) (d ∷ t) = c == d && str_eq s t

pub str_eq-eq : (s t : Str) → str_eq s t ≡ true → s ≡ t
unfolding str_eq
str_eq-eq [] [] h = refl
str_eq-eq [] (d ∷ t) h = ground arith
str_eq-eq (c ∷ s) [] h = ground arith
str_eq-eq (c ∷ s) (d ∷ t) h = ap₂ ◌∷◌ (ground arith) (str_eq-eq s t (ground arith))

pub str_eq_self : (s : Str) → str_eq s s ≡ true
unfolding str_eq
str_eq_self [] = refl
str_eq_self (c ∷ s) = ground (arith, str_eq_self s)

-- `u8::to_ascii_lowercase`.
unfoldable pub to_ascii_lowercase : ℕ → ℕ
to_ascii_lowercase c = if ltb 64 c && ltb c 91 then c + 32 else c

-- `str::eq_ignore_ascii_case`.
unfoldable pub eq_ignore_ascii_case : Str → Str → Bool
unfolding to_ascii_lowercase
eq_ignore_ascii_case [] [] = true
eq_ignore_ascii_case [] (d ∷ t) = false
eq_ignore_ascii_case (c ∷ s) [] = false
eq_ignore_ascii_case (c ∷ s) (d ∷ t) =
    to_ascii_lowercase c == to_ascii_lowercase d && eq_ignore_ascii_case s t

unfoldable pub Str-discrete : Discrete Str
unfolding ℕ_discrete
Str-discrete [] [] = yes refl
Str-discrete [] (d ∷ t) = no (λ p. cc)
Str-discrete (c ∷ s) [] = no (λ p. cc)
Str-discrete (c ∷ s) (d ∷ t) = elim (ℕ_discrete c d) [
  | no n ↦ no (λ p. n (head_eq p))
  | yes p ↦ elim (Str-discrete s t) [ yes q ↦ yes (ap₂ ◌∷◌ p q) | no n ↦ no (λ q. n (tail_eq q)) ]
]
  where
    head_eq : {c d : ℕ} {s t : Str} → c ∷ s ≡ d ∷ t → c ≡ d
    head_eq p = cc

    tail_eq : {c d : ℕ} {s t : Str} → c ∷ s ≡ d ∷ t → s ≡ t
    tail_eq p = cc
