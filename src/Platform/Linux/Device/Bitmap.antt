-- ===== src/Platform/Linux/Device/Bitmap.antt =====
-- src/platform/linux/mapping/device.rs: the bitmap of the held keys that the kernel reports.
use keymapper_rs.Prelude.{
  ℕ, zero, suc, ◌+◌, ◌*◌, ◌-◌, ◌%◌, ◌^◌, ◌/◌, ◌<◌, ◌≤◌, ◌≡◌, refl, ap, ◌∙◌, ◌||◌, All, contains,
  arith, length, Bool, true, not, ◌&&◌, List, [], ◌∷◌, ◌++◌, bit_and, ◌==◌, ltb, if◌then◌else◌,
  ℕ_discrete,
}
use keymapper_rs.Bits.{has, bit_and_pow, has-zero}

-- The loop over the bits of a byte: `as u16` is a remainder.
unfoldable pub byte_codes : ℕ → ℕ → ℕ → List ℕ → List ℕ
byte_codes key_cnt i byte [] = []
byte_codes key_cnt i byte (bit ∷ rest) =
    let code = (i * 8 + bit) % 65536 in
    let codes = byte_codes key_cnt i byte rest in
    if not (bit_and byte (2 ^ bit) == 0) && ltb code (key_cnt % 65536) then code ∷ codes else codes

-- The loop over the bytes, from the index `i` on.
unfoldable pub bitmap_codes : ℕ → ℕ → List ℕ → List ℕ
unfolding byte_codes
bitmap_codes key_cnt i [] = []
bitmap_codes key_cnt i (byte ∷ buf) =
    byte_codes key_cnt i byte (0 ∷ 1 ∷ 2 ∷ 3 ∷ 4 ∷ 5 ∷ 6 ∷ 7 ∷ [])
    ++ bitmap_codes key_cnt (suc i) buf

unfoldable pub parse_key_bitmap : List ℕ → ℕ → List ℕ
unfolding bitmap_codes
parse_key_bitmap buf key_cnt = bitmap_codes key_cnt 0 buf

-- The byte of a code, beyond the buffer 0.
abbrev pub byte_at : ℕ → List ℕ → ℕ
byte_at i [] = 0
byte_at zero (byte ∷ buf) = byte
byte_at (suc i) (byte ∷ buf) = byte_at i buf

abbrev pub member : ℕ → List ℕ → Bool
member c codes = contains ℕ_discrete c codes

member-append : (c : ℕ) (xs ys : List ℕ) → member c (xs ++ ys) ≡ (member c xs || member c ys)
unfolding contains
member-append c [] ys = refl
member-append c (x ∷ xs) ys = ground (arith, member-append c xs ys)

-- One bit of the byte at `i`.
member-byte_codes_cons :
    (key_cnt i byte c bit : ℕ) (bs : List ℕ)
    → member c (byte_codes key_cnt i byte (bit ∷ bs)) ≡ (
        (has byte bit
          && (ltb ((i * 8 + bit) % 65536) (key_cnt % 65536) && (c == (i * 8 + bit) % 65536)))
        || member c (byte_codes key_cnt i byte bs))
unfolding byte_codes contains ℕ_discrete
member-byte_codes_cons key_cnt i byte c bit bs = ground (arith, bit_and_pow byte bit)

-- The code of a bit is the number `c`.
code_eq :
    (i bit c : ℕ) → i < 8192 → bit < 8 → (c == (i * 8 + bit) % 65536) ≡ (i == c / 8 && c % 8 == bit)
code_eq i bit c small b = ground (arith, small, b)

member_cons : (c x : ℕ) (xs : List ℕ) → member c (x ∷ xs) ≡ (c == x || member c xs)
unfolding contains ℕ_discrete
member_cons c x xs = ground arith

-- The codes of one byte, below the wrap-around.
member-byte_codes :
    (key_cnt i byte c : ℕ) (bs : List ℕ)
    → i < 8192
    → All (λ bit. bit < 8) bs
    → key_cnt < 65536
    → member c (byte_codes key_cnt i byte bs)
      ≡ (ltb c key_cnt && (i == c / 8 && (has byte (c % 8) && member (c % 8) bs)))
unfolding byte_codes contains
member-byte_codes key_cnt i byte c [] small all cnt = ground arith
member-byte_codes key_cnt i byte c (bit ∷ bs) small (b, all) cnt =
    rw (member-byte_codes_cons key_cnt i byte c bit bs, member_cons (c % 8) bit bs)
      (ground (
        arith,
        code_eq i bit c small b,
        member-byte_codes key_cnt i byte c bs small all cnt,
        ap (has byte) {x = c % 8} {y = bit},
      ))

bits_below : All (λ bit. bit < 8) (0 ∷ 1 ∷ 2 ∷ 3 ∷ 4 ∷ 5 ∷ 6 ∷ 7 ∷ [])
bits_below = ground arith

all_bits : (c : ℕ) → member (c % 8) (0 ∷ 1 ∷ 2 ∷ 3 ∷ 4 ∷ 5 ∷ 6 ∷ 7 ∷ []) ≡ true
unfolding contains ℕ_discrete
all_bits c = ground arith

byte_at_cons :
    (q i byte : ℕ) (buf : List ℕ) → i < q → byte_at (q - i) (byte ∷ buf) ≡ byte_at (q - suc i) buf
byte_at_cons q i byte buf h = ap (λ n. byte_at n (byte ∷ buf)) later
  where
    later : q - i ≡ suc (q - suc i)
    later = omega (arith, h)

byte_at_here : (q i byte : ℕ) (buf : List ℕ) → i ≡ q → byte_at (q - i) (byte ∷ buf) ≡ byte
byte_at_here q i byte buf h = ap (λ n. byte_at n (byte ∷ buf)) now
  where
    now : q - i ≡ 0
    now = omega (arith, h)

-- The bitmap from the index `i` on.
member-bitmap_codes :
    (key_cnt i c : ℕ) (buf : List ℕ)
    → i + length buf ≤ 8192
    → key_cnt < 65536
    → member c (bitmap_codes key_cnt i buf)
      ≡ (ltb c key_cnt && (not (ltb (c / 8) i) && has (byte_at (c / 8 - i) buf) (c % 8)))
unfolding bitmap_codes contains
member-bitmap_codes key_cnt i c [] small cnt = ground (arith, has-zero (c % 8))
member-bitmap_codes key_cnt i c (byte ∷ buf) small cnt =
    rw
      (
        member-append c (byte_codes key_cnt i byte (0 ∷ 1 ∷ 2 ∷ 3 ∷ 4 ∷ 5 ∷ 6 ∷ 7 ∷ []))
            (bitmap_codes key_cnt (suc i) buf),
        member-byte_codes key_cnt i byte c _ (omega (arith, small)) bits_below cnt,
        all_bits c,
        member-bitmap_codes key_cnt (suc i) c buf (omega (arith, small)) cnt,
      )
      (ground (
        arith,
        ap (λ x. has x (c % 8)) {x = byte_at (c / 8 - i) (byte ∷ buf)} {y = byte},
        ap (λ x. has x (c % 8)) {x = byte_at (c / 8 - i) (byte ∷ buf)}
            {y = byte_at (c / 8 - suc i) buf},
        byte_at_cons (c / 8) i byte buf,
        byte_at_here (c / 8) i byte buf,
      ))

-- Exactly the keys of the bitmap are held. For a buffer of at most 8192 bytes, so that every code
-- fits 16 bits, and a count below 2 ^ 16: a code is in the result of `parse_key_bitmap` exactly when
-- it is below the count and its bit, counted from the lowest of each byte, is set in the buffer.
pub member-parse_key_bitmap :
    (buf : List ℕ) (key_cnt c : ℕ)
    → length buf ≤ 8192
    → key_cnt < 65536
    → member c (parse_key_bitmap buf key_cnt) ≡ (ltb c key_cnt && has (byte_at (c / 8) buf) (c % 8))
unfolding parse_key_bitmap contains
member-parse_key_bitmap buf key_cnt c small cnt =
    member-bitmap_codes key_cnt 0 c buf (omega (arith, small)) cnt ∙ ground arith
