-- ===== src/Platform/IpcFrame/RoundTrip.antt =====
-- src/platform/macos/ipc_frame.rs: `encode` and `decode` together.
use keymapper_rs.Prelude.{
  ℕ, zero, suc, ◌*◌, ◌<◌, ◌≤◌, ◌≡◌, refl, sym, ap, ◌∙◌, List, [], ◌∷◌, ◌++◌, arith, length, take,
  length-take, min,
}
use keymapper_rs.Common.HidUsage.{HidUsage, code}
use keymapper_rs.Common.HidUsage.Codes.{from_code-code}
use keymapper_rs.Common.Frame.{Result, to_le_bytes, from_le_bytes, parse}
use keymapper_rs.Common.Frame.Codec.{parse-encode, from_le_bytes-to_le_bytes}
use keymapper_rs.Common.Frame
use keymapper_rs.Core.Rules.{NativeKey}
use keymapper_rs.Platform.IpcFrame.{
  encode_keys, encode, push_key, decode_keys, decode_counted, decode_payload, decode_parsed, decode,
  max_keys_per_frame, max_payload_len,
}

code-lt : (u : HidUsage) → code u < 4294967296
unfolding code
code-lt HidUsage.left_control = omega arith
code-lt _ = omega arith

length-encode_keys : (keys : List NativeKey) → length (encode_keys keys) ≡ length keys * 5
unfolding encode_keys to_le_bytes
length-encode_keys [] = refl
length-encode_keys (key ∷ keys) = omega (arith, length-encode_keys keys)

decode_keys-encode_keys :
    (keys : List NativeKey) → decode_keys (length keys) (encode_keys keys) ≡ Result.ok keys
unfolding decode_keys encode_keys to_le_bytes push_key
decode_keys-encode_keys [] = refl
decode_keys-encode_keys (key ∷ keys) =
    rw
      (
        from_le_bytes-to_le_bytes (code key.usage) (code-lt key.usage),
        from_code-code key.usage,
        decode_keys-encode_keys keys,
      )
      refl

-- The payload of a batch of at most 64 keys.
abbrev pub payload_of : List NativeKey → List ℕ
payload_of keys = to_le_bytes (length keys) ++ encode_keys keys

pub decode_payload-encode :
    (keys : List NativeKey) → length keys ≤ 64 → decode_payload (payload_of keys) ≡ Result.ok keys
unfolding decode_payload decode_counted to_le_bytes
decode_payload-encode keys few =
    rw (from_le_bytes-to_le_bytes (length keys) (omega (arith, few)))
      (ground (arith, few, length-encode_keys keys, decode_keys-encode_keys keys))

take_nil : (n : ℕ) → take {A = NativeKey} n [] ≡ []
take_nil zero = refl
take_nil (suc n) = refl

take-min : (n : ℕ) (keys : List NativeKey) → take (min (length keys) n) keys ≡ take n keys
take-min zero keys = rw (none_taken (length keys)) refl
  where
    none_taken : (m : ℕ) → min m 0 ≡ 0
    none_taken m = omega arith
take-min (suc n) [] = take_nil (min 0 (suc n))
take-min (suc n) (key ∷ keys) =
    rw (one_less (length keys) n) (ap (λ ks. key ∷ ks) (take-min n keys))
  where
    one_less : (m n : ℕ) → min (suc m) (suc n) ≡ suc (min m n)
    one_less m n = omega arith

append_nil : (xs : List ℕ) → xs ++ [] ≡ xs
append_nil [] = refl
append_nil (x ∷ xs) = ap (λ ys. x ∷ ys) (append_nil xs)

pub short : (keys : List NativeKey) → length keys ≤ 64 → length (payload_of keys) ≤ max_payload_len
unfolding to_le_bytes
short keys few = omega (arith, few, length-encode_keys keys)

decode-encode_payload :
    (payload : List ℕ)
    → length payload ≤ max_payload_len
    → decode (Frame.encode payload) ≡ decode_payload payload
unfolding decode decode_parsed
decode-encode_payload payload few = ap decode_parsed parsed
  where
    parsed : parse (Frame.encode payload) max_payload_len ≡ Result.ok payload
    parsed =
        ap (λ frame. parse frame max_payload_len) (sym (append_nil (Frame.encode payload)))
        ∙ parse-encode payload [] max_payload_len (omega (arith, few))
        ∙ ground (arith, few)

pub few_taken : (keys : List NativeKey) → length (take 64 keys) ≤ 64
few_taken keys = omega (arith, length-take 64 keys)

pub encode-eq : (keys : List NativeKey) → encode keys ≡ Frame.encode (payload_of (take 64 keys))
unfolding encode
encode-eq keys =
    ap (λ ks. Frame.encode (to_le_bytes (min (length keys) 64) ++ encode_keys ks))
      (take-min 64 keys)
    ∙ ap (λ n. Frame.encode (to_le_bytes n ++ encode_keys (take 64 keys)))
        (omega (arith, length-take 64 keys))

-- Decoding an encoded batch gives the batch, cut to the first 64 keys if it is longer.
pub decode-encode :
    (keys : List NativeKey) → decode (encode keys) ≡ Result.ok (take max_keys_per_frame keys)
decode-encode keys =
    ap decode (encode-eq keys)
    ∙ decode-encode_payload (payload_of (take 64 keys)) (short (take 64 keys) (few_taken keys))
    ∙ decode_payload-encode (take 64 keys) (few_taken keys)
