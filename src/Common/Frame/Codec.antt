-- ===== src/Common/Frame/Codec.antt =====
-- src/common/frame.rs: `encode` and `parse` together.
use keymapper_rs.Prelude.{
  ℕ, zero, suc, ◌/◌, ◌%◌, ◌<◌, ◌≤◌, ◌≡◌, refl, sym, ap, ap₂, ◌∙◌, List, [], ◌∷◌, ◌++◌, arith,
  length, take, drop, length-append, All, ltb, if◌then◌else◌,
}
use keymapper_rs.Common.Frame.{
  Result, FrameError, encode, parse, parse_payload, parse_rest, to_le_bytes, from_le_bytes,
}

-- A length that fits 32 bits survives its four bytes.
pub from_le_bytes-to_le_bytes :
    (n : ℕ)
    → n < 4294967296
    → from_le_bytes (n % 256) (n / 256 % 256) (n / 65536 % 256) (n / 16777216 % 256) ≡ n
from_le_bytes-to_le_bytes n small = omega arith

pub take-append : (xs ys : List ℕ) → take (length xs) (xs ++ ys) ≡ xs
take-append [] ys = refl
take-append (x ∷ xs) ys = ap (λ zs. x ∷ zs) (take-append xs ys)

pub take-drop :
    (n : ℕ) (xs : List ℕ) → n ≤ length xs → (take n xs ++ drop n xs ≡ xs) × (length (take n xs) ≡ n)
take-drop zero xs h = (refl, refl)
take-drop (suc n) [] h = absurd (omega arith)
take-drop (suc n) (x ∷ xs) h =
    let (e, l) = take-drop n xs (omega arith) in (ap (λ zs. x ∷ zs) e, ap suc l)

-- A frame is read back whatever follows it: if the payload is within the bound and its length fits
-- 32 bits, then parsing a buffer that starts with the encoded payload gives the payload; and a
-- payload over the bound is refused with its length.
pub parse-encode :
    (payload extra : List ℕ) (max_payload : ℕ)
    → length payload < 4294967296
    → parse (encode payload ++ extra) max_payload ≡ (
        if ltb max_payload (length payload)
        then Result.err (FrameError.payload_too_large (length payload))
        else Result.ok payload)
unfolding parse encode parse_rest parse_payload to_le_bytes
parse-encode payload extra max_payload small =
    rw (from_le_bytes-to_le_bytes (length payload) small)
      (ground (arith, length-append payload extra, take-append payload extra))

pub to_le_bytes-from_le_bytes :
    (b0 b1 b2 b3 : ℕ)
    → b0 < 256
    → b1 < 256
    → b2 < 256
    → b3 < 256
    → to_le_bytes (from_le_bytes b0 b1 b2 b3) ≡ b0 ∷ b1 ∷ b2 ∷ b3 ∷ []
unfolding to_le_bytes
to_le_bytes-from_le_bytes b0 b1 b2 b3 l0 l1 l2 l3 = ground arith

parse_fields :
    (v b0 b1 b2 b3 : ℕ) (body payload : List ℕ) (max_payload : ℕ)
    → parse (v ∷ b0 ∷ b1 ∷ b2 ∷ b3 ∷ body) max_payload ≡ Result.ok payload
    → let len = from_le_bytes b0 b1 b2 b3 in
      (v ≡ 1) × (len ≤ max_payload) × (len ≤ length body) × (payload ≡ take len body)
unfolding parse parse_rest parse_payload
parse_fields v b0 b1 b2 b3 body payload max_payload h = ground (arith, h)

-- Only frames are accepted: a buffer of bytes that parses to a payload is the encoding of that
-- payload followed by something, and the payload is within the bound.
pub parse-ok :
    (frame payload : List ℕ) (max_payload : ℕ)
    → All (λ b. b < 256) frame
    → parse frame max_payload ≡ Result.ok payload
    → (length payload ≤ max_payload) × ((extra : List ℕ) × (frame ≡ encode payload ++ extra))
unfolding parse encode parse_rest parse_payload to_le_bytes
parse-ok [] payload max_payload bytes h = cc
parse-ok (v ∷ []) payload max_payload bytes h = ground (arith, h)
parse-ok (v ∷ b0 ∷ []) payload max_payload bytes h = ground (arith, h)
parse-ok (v ∷ b0 ∷ b1 ∷ []) payload max_payload bytes h = ground (arith, h)
parse-ok (v ∷ b0 ∷ b1 ∷ b2 ∷ []) payload max_payload bytes h = ground (arith, h)
parse-ok (v ∷ b0 ∷ b1 ∷ b2 ∷ b3 ∷ body) payload max_payload (lv, (l0, (l1, (l2, (l3, rest))))) h =
    let (version, bound, fits, e) = parse_fields v b0 b1 b2 b3 body payload max_payload h in
    let len = from_le_bytes b0 b1 b2 b3 in
    let (split, cut) = take-drop len body fits in
    let same_length : length payload ≡ len = ap length e ∙ cut in
    let bytes = to_le_bytes-from_le_bytes b0 b1 b2 b3 l0 l1 l2 l3 in
    (
      omega (arith, same_length, bound),
      (
        drop len body,
        ap₂ (λ x xs. x ∷ xs) version
            (ap₂ (λ x y. x ++ y) (sym bytes ∙ ap to_le_bytes (sym same_length))
              (sym split ∙ ap (λ p. p ++ drop len body) (sym e))),
      ),
    )
