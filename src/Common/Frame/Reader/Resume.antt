-- ===== src/Common/Frame/Reader/Resume.antt =====
-- src/common/frame.rs, `FrameReader`: the bytes that are still to be read.
use keymapper_rs.Prelude.{
  ℕ, ◌-◌, ◌≤◌, ◌≡◌, refl, sym, ap, ◌∙◌, inl, inr, List, [], ◌∷◌, ◌++◌, none, some, arith, length,
  take, drop, length-append, ltb, ◌==◌, true, Bool-cases,
}
use keymapper_rs.Common.Frame.{FrameError}
use keymapper_rs.Common.Frame.Codec.{take-drop}
use keymapper_rs.Common.Frame.Reader.{ErrorKind, Delivery, Filled, read_into}

-- The bytes that the stream still has.
abbrev pub bytes_of : List Delivery → List ℕ
bytes_of [] = []
bytes_of (Delivery.chunk bytes ∷ reader) = bytes ++ bytes_of reader
bytes_of (Delivery.fails kind ∷ reader) = bytes_of reader

pub append_assoc : (s t u : List ℕ) → (s ++ t) ++ u ≡ s ++ (t ++ u)
append_assoc [] t u = refl
append_assoc (c ∷ s) t u = ap (λ r. c ∷ r) (append_assoc s t u)

pub append_nil : (s : List ℕ) → s ++ [] ≡ s
append_nil [] = refl
append_nil (c ∷ s) = ap (λ r. c ∷ r) (append_nil s)

no_bytes : (bytes : List ℕ) → (length bytes == 0) ≡ true → bytes ≡ []
no_bytes [] h = refl
no_bytes (b ∷ bytes) h = absurd (ground (arith, h))

-- What `f` says of a read into the buffer `buf` of `len` bytes.
pub record IsFilled (len : ℕ) (reader : List Delivery) (buf : List ℕ) (f : Filled) : Type 0 where
  pub kept : f.buf ++ bytes_of f.reader ≡ buf ++ bytes_of reader
  pub bound : length f.buf ≤ len
  pub full : f.error ≡ none → length f.buf ≡ len

-- Reading into a buffer loses no byte, however the stream is cut and whatever errors it has: if the
-- buffer is not over-full, then its valid bytes and those that the stream still has are together
-- the same before and after, the buffer is not over-full after, and it is full if there is no error.
pub read_into-IsFilled :
    (len : ℕ) (reader : List Delivery) (buf : List ℕ)
    → length buf ≤ len
    → IsFilled len reader buf (read_into len reader buf)
unfolding read_into
read_into-IsFilled len [] buf fits = elim (Bool-cases (ltb (length buf) len)) [
  | inl more ↦ rw (more, read_into) (record { kept = refl; bound = fits; full = λ h. cc })
  | inr done ↦
      rw (done, read_into)
        (record { kept = refl; bound = fits; full = λ h. ground (arith, fits, done) })
]
read_into-IsFilled len (Delivery.chunk bytes ∷ reader) buf fits =
    elim (Bool-cases (ltb (length buf) len)) [
      | inr done ↦
          rw (done, read_into)
            (record { kept = refl; bound = fits; full = λ h. ground (arith, fits, done) })
      | inl more ↦ elim (Bool-cases (length bytes == 0)) [
        | inl nothing ↦
            rw (more, nothing, read_into)
              (record {
                kept = ap (λ b. buf ++ (b ++ bytes_of reader)) (sym (no_bytes bytes nothing));
                bound = fits;
                full = λ h. cc;
              })
        | inr some_bytes ↦ elim (Bool-cases (ltb (len - length buf) (length bytes))) [
          | inl over ↦
              rw (more, some_bytes, over, read_into)
                (record {
                  kept =
                      append_assoc buf (take (len - length buf) bytes)
                        (drop (len - length buf) bytes ++ bytes_of reader)
                      ∙ ap (λ b. buf ++ b)
                          (sym (
                              append_assoc (take (len - length buf) bytes)
                                (drop (len - length buf) bytes) (bytes_of reader))
                            ∙ ap (λ b. b ++ bytes_of reader)
                                (take-drop (len - length buf) bytes (ground (arith, over))).0);
                  bound = ground (
                    arith,
                    fits,
                    more,
                    over,
                    length-append buf (take (len - length buf) bytes),
                    (take-drop (len - length buf) bytes (ground (arith, over))).1,
                  );
                  full = λ h. ground (
                    arith,
                    fits,
                    more,
                    over,
                    length-append buf (take (len - length buf) bytes),
                    (take-drop (len - length buf) bytes (ground (arith, over))).1,
                  );
                })
          | inr rest ↦
              rw (more, some_bytes, rest, read_into)
                (let r =
                    read_into-IsFilled len reader (buf ++ bytes)
                      (ground (arith, fits, more, rest, length-append buf bytes)) in
                  record {
                    kept = r.kept ∙ append_assoc buf bytes (bytes_of reader);
                    bound = r.bound;
                    full = r.full;
                  })
        ]
      ]
    ]
read_into-IsFilled len (Delivery.fails kind ∷ reader) buf fits =
    elim (Bool-cases (ltb (length buf) len)) [
      | inr done ↦
          rw (done, read_into)
            (record { kept = refl; bound = fits; full = λ h. ground (arith, fits, done) })
      | inl more ↦ rw (more, read_into) (failed (read_into-IsFilled len reader buf fits) kind)
    ]
  where
    failed :
        IsFilled len reader buf (read_into len reader buf)
        → (kind : ErrorKind)
        → IsFilled len (Delivery.fails kind ∷ reader) buf (elim kind [
          | ErrorKind.unexpected_eof ↦ record {
            reader = reader;
            buf = buf;
            error = some FrameError.eof;
          }
          | ErrorKind.interrupted ↦ read_into len reader buf
          | _ ↦ record { reader = reader; buf = buf; error = some FrameError.io }
        ])
    failed rest ErrorKind.unexpected_eof = record { kept = refl; bound = fits; full = λ h. cc }
    failed rest ErrorKind.would_block = record { kept = refl; bound = fits; full = λ h. cc }
    failed rest ErrorKind.other = record { kept = refl; bound = fits; full = λ h. cc }
    failed rest ErrorKind.interrupted = record {
      kept = rest.kept;
      bound = rest.bound;
      full = rest.full;
    }
