-- ===== src/Common/Frame/Reader/Pending.antt =====
-- src/common/frame.rs, `FrameReader`: the bytes that are to be read, and the payload phase.
use keymapper_rs.Prelude.{
  ℕ, ◌<◌, ◌≤◌, ◌≡◌, sym, ap, ap₂, ◌∙◌, inl, inr, Bool, true, false, List, [], ◌∷◌, ◌++◌, Option,
  none, some, arith, length, ◌==◌, Option-cases,
}
use keymapper_rs.Common.Frame.{
  FrameError, Result, ok, err, encode, frame_version, to_le_bytes, from_le_bytes,
}
use keymapper_rs.Common.Frame.Reader.{
  ErrorKind, Delivery, Filled, FrameReader, read_into, payload_so_far, finish,
}
use keymapper_rs.Common.Frame.Reader.Resume.{bytes_of, IsFilled, read_into-IsFilled}

-- The bytes that no frame has been made of yet: those that the reader holds, and those to come.
abbrev pub pending : FrameReader → List ℕ
pending r = r.header ++ (payload_so_far r.payload ++ bytes_of r.reader)

-- The reader is idle or within a header; or within the payload of an accepted header.
abbrev pub Fits : ℕ → List ℕ → Option (List ℕ) → Type 0
Fits max_payload header none = length header ≤ 5
Fits max_payload header (some p) =
    (b0 : ℕ) × (b1 : ℕ) × (b2 : ℕ) × (b3 : ℕ) × (header ≡ frame_version ∷ b0 ∷ b1 ∷ b2 ∷ b3 ∷ [])
    × (from_le_bytes b0 b1 b2 b3 ≤ max_payload)
    × (length p ≤ from_le_bytes b0 b1 b2 b3)

-- What a call has taken, by its result.
abbrev pub Took : ℕ → List ℕ → List ℕ → Result FrameError (List ℕ) → Type 0
Took max_payload before after (ok p) = (length p ≤ max_payload) × (before ≡ encode p ++ after)
Took max_payload before after (err (FrameError.unsupported_version v)) =
    (b0 : ℕ) × (b1 : ℕ) × (b2 : ℕ) × (b3 : ℕ) × (before ≡ v ∷ b0 ∷ b1 ∷ b2 ∷ b3 ∷ after)
    × ((v == frame_version) ≡ false)
Took max_payload before after (err (FrameError.payload_too_large len)) =
    (before ≡ frame_version ∷ to_le_bytes len ++ after) × (max_payload < len)
Took max_payload before after (err _) = after ≡ before

pub record IsRead (max_payload : ℕ) (r : FrameReader)
    (result : FrameReader × Result FrameError (List ℕ)) : Type 0 where
  pub took : Took max_payload (pending r) (pending (result.0)) (result.1)
  pub resumable : Fits max_payload (result.0).header (result.0).payload

-- The errors of the stream.
abbrev pub is_transport : Option FrameError → Bool
is_transport none = true
is_transport (some FrameError.eof) = true
is_transport (some FrameError.io) = true
is_transport (some _) = false

pub read_into_transport :
    (len : ℕ) (reader : List Delivery) (buf : List ℕ)
    → is_transport (read_into len reader buf).error ≡ true
unfolding read_into
read_into_transport len [] buf = ground arith
read_into_transport len (Delivery.chunk bytes ∷ reader) buf =
    ground (arith, read_into_transport len reader (buf ++ bytes))
read_into_transport len (Delivery.fails ErrorKind.interrupted ∷ reader) buf =
    ground (arith, read_into_transport len reader buf)
read_into_transport len (Delivery.fails ErrorKind.unexpected_eof ∷ reader) buf = ground arith
read_into_transport len (Delivery.fails ErrorKind.would_block ∷ reader) buf = ground arith
read_into_transport len (Delivery.fails ErrorKind.other ∷ reader) buf = ground arith

-- An error of the stream takes nothing.
pub nothing_taken :
    (max_payload : ℕ) (before after : List ℕ) (e : FrameError)
    → is_transport (some e) ≡ true
    → after ≡ before
    → Took max_payload before after (err e)
nothing_taken max_payload before after FrameError.eof h same = same
nothing_taken max_payload before after FrameError.io h same = same
nothing_taken max_payload before after (FrameError.too_short n) h same = same
nothing_taken max_payload before after (FrameError.truncated m n) h same = same
nothing_taken max_payload before after (FrameError.unsupported_version v) h same = cc
nothing_taken max_payload before after (FrameError.payload_too_large len) h same = cc

-- The payload phase, for an accepted header.
finish-IsRead :
    (max_payload v b0 b1 b2 b3 : ℕ) (r : FrameReader)
    → v ≡ frame_version
    → r.header ≡ v ∷ b0 ∷ b1 ∷ b2 ∷ b3 ∷ []
    → to_le_bytes (from_le_bytes b0 b1 b2 b3) ≡ b0 ∷ b1 ∷ b2 ∷ b3 ∷ []
    → from_le_bytes b0 b1 b2 b3 ≤ max_payload
    → (filled : Filled) → is_transport filled.error ≡ true
    → IsFilled (from_le_bytes b0 b1 b2 b3) r.reader (payload_so_far r.payload) filled
    → IsRead max_payload r (finish (v ∷ b0 ∷ b1 ∷ b2 ∷ b3 ∷ []) filled)
unfolding finish payload_so_far encode to_le_bytes
finish-IsRead max_payload v b0 b1 b2 b3 r version head bytes bound filled transport f =
    elim (Option-cases filled.error) [
      | inr (e, failed) ↦
          rw (failed, finish)
            (record {
              took =
                  nothing_taken max_payload (pending r)
                    (v ∷ b0 ∷ b1 ∷ b2 ∷ b3 ∷ (filled.buf ++ bytes_of filled.reader)) e
                    (ap is_transport (sym failed) ∙ transport)
                    (sym (ap₂ (λ h t. h ++ t) head (sym f.kept)));
              resumable =
                  (b0, b1, b2, b3, ap (λ x. x ∷ b0 ∷ b1 ∷ b2 ∷ b3 ∷ []) version, bound, f.bound);
            })
      | inl none_failed ↦
          let size = f.full none_failed in
          rw (none_failed, finish)
            (record {
              took = (
                omega (arith, size, bound),
                ap₂ (λ h t. h ++ t) head (sym f.kept)
                    ∙ ap₂ (λ x l. x ∷ l ++ (filled.buf ++ bytes_of filled.reader)) version
                        (sym bytes ∙ ap to_le_bytes (sym size)),
              );
              resumable = omega arith;
            })
    ]

-- The same for the reader, within the accepted header and a payload that is begun or not.
pub payload_phase :
    (max_payload v b0 b1 b2 b3 : ℕ) (r : FrameReader)
    → v ≡ frame_version
    → r.header ≡ v ∷ b0 ∷ b1 ∷ b2 ∷ b3 ∷ []
    → to_le_bytes (from_le_bytes b0 b1 b2 b3) ≡ b0 ∷ b1 ∷ b2 ∷ b3 ∷ []
    → from_le_bytes b0 b1 b2 b3 ≤ max_payload
    → length (payload_so_far r.payload) ≤ from_le_bytes b0 b1 b2 b3
    → IsRead max_payload r (
        finish
          (v ∷ b0 ∷ b1 ∷ b2 ∷ b3 ∷ [])
          (read_into (from_le_bytes b0 b1 b2 b3) r.reader (payload_so_far r.payload)))
payload_phase max_payload v b0 b1 b2 b3 r version head bytes bound fits =
    let len = from_le_bytes b0 b1 b2 b3 in
    let so_far = payload_so_far r.payload in
    finish-IsRead max_payload v b0 b1 b2 b3 r version head bytes bound
      (read_into len r.reader so_far) (read_into_transport len r.reader so_far)
      (read_into-IsFilled len r.reader so_far fits)
