-- ===== src/Bits.antt =====
-- The `u8` modifier masks: single bits, the bitwise operators, and their laws bit by bit.
use Prim.Native.Nat.{digits, bitwise, bit_and-bitwise, bit_or-bitwise, max}
use native.Mathlib.Nat.{pow-suc}
use keymapper_rs.Prelude.{
  ℕ, zero, suc, ◌+◌, ◌-◌, ◌*◌, ◌/◌, ◌%◌, ◌^◌, ◌≤◌, ◌<◌, bit_and, bit_or, min, ◌≡◌, refl, Bool, true,
  false, not, ◌&&◌, ◌||◌, arith, ◌==◌, if◌then◌else◌, ap, ◌∙◌,
}

-- Whether bit `i` of the mask is set.
unfoldable pub has : ℕ → ℕ → Bool
has m zero = m % 2 == 1
has m (suc i) = has (m / 2) i

-- `!m` on a `u8`.
abbrev pub bit_not : ℕ → ℕ
bit_not m = 255 - m % 256

-- One digit more than needed changes nothing, and so do any number of them.
digits_one_more :
    (last : ℕ → ℕ) (op : ℕ → ℕ → ℕ) (count x y : ℕ)
    → x ≤ count
    → digits last op (suc count) x y ≡ digits last op count x y
digits_one_more last op count zero y fits = nothing_left count
  where
    nothing_left : (count : ℕ) → digits last op (suc count) zero y ≡ digits last op count zero y
    nothing_left zero = refl
    nothing_left (suc count) = refl
digits_one_more last op zero (suc x) y fits = absurd (omega (arith, fits))
digits_one_more last op (suc count) (suc x) y fits =
    ap (λ high. high * 2 + op (suc x % 2) (y % 2))
      (digits_one_more last op count (suc x / 2) (y / 2) (omega (arith, fits)))

digits_more :
    (last : ℕ → ℕ) (op : ℕ → ℕ → ℕ) (extra x y : ℕ)
    → digits last op (extra + x) x y ≡ digits last op x x y
digits_more last op zero x y = ap (λ n. digits last op n x y) {x = 0 + x} {y = x} (omega arith)
digits_more last op (suc extra) x y =
    ap (λ n. digits last op n x y) {x = suc extra + x} {y = suc (extra + x)} (omega arith)
    ∙ digits_one_more last op (extra + x) x y (omega arith)
    ∙ digits_more last op extra x y

-- The lowest digit of a positive number, and the rest.
bitwise-halves :
    (last : ℕ → ℕ) (op : ℕ → ℕ → ℕ) (x y : ℕ)
    → bitwise last op (suc x) y ≡ op (suc x % 2) (y % 2) + 2 * bitwise last op (suc x / 2) (y / 2)
bitwise-halves last op x y =
    let half = suc x / 2 in
    let enough : digits last op x half (y / 2) ≡ digits last op half half (y / 2) =
      ap (λ n. digits last op n half (y / 2)) {x = x} {y = x - half + half} (omega arith)
      ∙ digits_more last op (x - half) half (y / 2) in
    omega (arith, enough)

bit_or-halves : (x y : ℕ) → bit_or x y ≡ max (x % 2) (y % 2) + 2 * bit_or (x / 2) (y / 2)
bit_or-halves zero y = simp bit_or-bitwise (omega arith)
bit_or-halves (suc x) y = simp bit_or-bitwise (bitwise-halves (λ rest. rest) max x y)

bit_and-halves : (x y : ℕ) → bit_and x y ≡ min (x % 2) (y % 2) + 2 * bit_and (x / 2) (y / 2)
bit_and-halves zero y = simp bit_and-bitwise (omega arith)
bit_and-halves (suc x) y = simp bit_and-bitwise (bitwise-halves (λ rest. 0) min x y)

-- A mask has nothing in common with the empty one.
pub empty_bit_and : (y : ℕ) → bit_and 0 y ≡ 0
empty_bit_and y = bit_and-bitwise 0 y

bit_and_empty_below : (bound x : ℕ) → x < bound → bit_and x 0 ≡ 0
bit_and_empty_below zero x below = absurd (omega (arith, below))
bit_and_empty_below (suc bound) zero below = empty_bit_and 0
bit_and_empty_below (suc bound) (suc x) below =
    let rest = bit_and_empty_below bound (suc x / 2) (omega (arith, below)) in
    omega (arith, rest, bit_and-halves (suc x) 0)

bit_and_empty : (x : ℕ) → bit_and x 0 ≡ 0
bit_and_empty x = bit_and_empty_below (suc x) x (omega arith)

bit_or-half : (a b : ℕ) → bit_or a b / 2 ≡ bit_or (a / 2) (b / 2)
bit_or-half a b = omega (arith, bit_or-halves a b)

bit_and-half : (a b : ℕ) → bit_and a b / 2 ≡ bit_and (a / 2) (b / 2)
bit_and-half a b = omega (arith, bit_and-halves a b)

pub has-bit_or : (a b i : ℕ) → has (bit_or a b) i ≡ (has a i || has b i)
unfolding has
has-bit_or a b zero = ground (arith, bit_or-halves a b)
has-bit_or a b (suc i) = rw bit_or-half (has-bit_or (a / 2) (b / 2) i)

pub has-bit_and : (a b i : ℕ) → has (bit_and a b) i ≡ (has a i && has b i)
unfolding has
has-bit_and a b zero = ground (arith, bit_and-halves a b)
has-bit_and a b (suc i) = rw bit_and-half (has-bit_and (a / 2) (b / 2) i)

pub has-zero : (i : ℕ) → has 0 i ≡ false
unfolding has
has-zero zero = refl
has-zero (suc i) = has-zero i

-- Complement and single bits, over the eight bits of a `u8`.
passes_up_to : (test : ℕ → Bool) (bound : ℕ) → Bool
passes_up_to test zero = true
passes_up_to test (suc bound) = if test bound then passes_up_to test bound else false

passes_up_to_each :
    (test : ℕ → Bool) (bound k : ℕ) → k < bound → passes_up_to test bound ≡ true → test k ≡ true
unfolding passes_up_to
passes_up_to_each test zero k below passed = absurd (omega (arith, below))
passes_up_to_each test (suc bound) k below passed =
    ground (arith, below, passed, passes_up_to_each test bound k)

-- `iff b c` tests that two Booleans are equal.
abbrev iff : Bool → Bool → Bool
iff true c = c
iff false c = not c

iff_sound : (b c : Bool) → iff b c ≡ true → b ≡ c
iff_sound b c h = ground arith

-- Bit `i` of the complement of the byte `m`.
abbrev flips : ℕ → ℕ → Bool
flips m i = iff (has (255 - m) i) (not (has m i))

not_table : passes_up_to (λ m. passes_up_to (flips m) 8) 256 ≡ true
unfolding passes_up_to has
not_table = refl

has-mod : (m i : ℕ) → i < 8 → has (m % 256) i ≡ has m i
unfolding has
has-mod m zero h = ground arith
has-mod m (suc zero) h = ground arith
has-mod m (suc (suc zero)) h = ground arith
has-mod m (suc (suc (suc zero))) h = ground arith
has-mod m (suc (suc (suc (suc zero)))) h = ground arith
has-mod m (suc (suc (suc (suc (suc zero))))) h = ground arith
has-mod m (suc (suc (suc (suc (suc (suc zero)))))) h = ground arith
has-mod m (suc (suc (suc (suc (suc (suc (suc zero))))))) h = ground arith
has-mod m (suc (suc (suc (suc (suc (suc (suc (suc i)))))))) h = absurd (omega arith)

pub has-bit_not : (m i : ℕ) → i < 8 → has (bit_not m) i ≡ not (has m i)
has-bit_not m i h = rw (← has-mod m i h) (
    iff_sound _ _ (
      passes_up_to_each (flips (m % 256)) 8 i h
        (passes_up_to_each (λ n. passes_up_to (flips n) 8) 256 (m % 256) (omega arith) not_table)))

half_pow : (b : ℕ) → 2 ^ suc b / 2 ≡ 2 ^ b
half_pow b = omega (arith, pow-suc 2 b)

pub has-pow : (b i : ℕ) → has (2 ^ b) i ≡ (i == b)
unfolding has
has-pow zero zero = refl
has-pow zero (suc i) = rw (has-zero i) (ground arith)
has-pow (suc b) zero = ground (arith, pow-suc 2 b)
has-pow (suc b) (suc i) = ap (λ (x : ℕ). has x i) (half_pow b) ∙ has-pow b i ∙ suc_eq i b
  where
    suc_eq : (i b : ℕ) → (i == b) ≡ (suc i == suc b)
    suc_eq i b = ground arith

-- `x & !m` clears the bits of `m`, and `x & (1 << b)` tests one bit.
pub has_clear : (x m i : ℕ) → i < 8 → has (bit_and x (bit_not m)) i ≡ (has x i && not (has m i))
has_clear x m i h =
    has-bit_and x (bit_not m) i ∙ ap (λ (c : Bool). has x i && c) (has-bit_not m i h)

-- Two numbers with the same bits are equal.
pub eq_of_bits_below :
    (w a b : ℕ) → a < 2 ^ w → b < 2 ^ w → ((i : ℕ) → i < w → has a i ≡ has b i) → a ≡ b
unfolding has
eq_of_bits_below zero a b p q h = omega arith
eq_of_bits_below (suc w) a b p q h =
    let low : (a % 2 == 1) ≡ (b % 2 == 1) = h 0 (omega arith) in
    let high : a / 2 ≡ b / 2 =
      eq_of_bits_below w (a / 2) (b / 2) (omega (arith, pow-suc 2 w)) (omega (arith, pow-suc 2 w))
        (λ i below. h (suc i) (omega arith)) in
    ground arith

pub bit_and_pow : (x b : ℕ) → (bit_and x (2 ^ b) == 0) ≡ not (has x b)
unfolding has
bit_and_pow x zero = ground (arith, bit_and-halves x 1, bit_and_empty (x / 2))
bit_and_pow x (suc b) = ground (
  arith,
  bit_and-halves x (2 ^ suc b),
  pow-suc 2 b,
  ap (λ (y : ℕ). bit_and (x / 2) y) (half_pow b),
  bit_and_pow (x / 2) b,
)

pub bit_or-lt : (w a b : ℕ) → a < 2 ^ w → b < 2 ^ w → bit_or a b < 2 ^ w
bit_or-lt zero zero zero p q = omega arith
bit_or-lt zero zero (suc b) p q = absurd (omega arith)
bit_or-lt zero (suc a) b p q = absurd (omega arith)
bit_or-lt (suc w) a b p q = omega (
  arith,
  pow-suc 2 w,
  bit_or-halves a b,
  bit_or-lt w (a / 2) (b / 2) (omega (arith, pow-suc 2 w)) (omega (arith, pow-suc 2 w)),
)

pub bit_and-le : (n a b : ℕ) → a ≤ n → bit_and a b ≤ a
bit_and-le n zero b h = omega (arith, empty_bit_and b)
bit_and-le zero (suc a) b h = absurd (omega arith)
bit_and-le (suc n) (suc a) b h =
    omega (arith, bit_and-halves (suc a) b, bit_and-le n (suc a / 2) (b / 2) (omega arith))

-- A set bit shows that the mask is not 0.
pub has-eq_zero : (m i : ℕ) → has m i ≡ true → (m == 0) ≡ false
has-eq_zero m i h = ground (arith, has-zero i, ap (λ (x : ℕ). has x i) {x = m} {y = 0})
