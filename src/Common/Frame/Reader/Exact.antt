-- ===== src/Common/Frame/Reader/Exact.antt =====
-- src/common/frame.rs, `FrameReader::read_payload`: what a call takes from the bytes to be read.
use keymapper_rs.Prelude.{
  ℕ, ◌<◌, ◌≤◌, ◌≡◌, refl, sym, ap, ap₂, subst, ◌∙◌, inl, inr, true, false, List, [], ◌∷◌, ◌++◌,
  Option, none, some, arith, length, All, ltb, ◌==◌, ==_iff, ltb→lt, Bool-cases, Option-cases,
}
use keymapper_rs.Common.Frame.{FrameError, Result, frame_version, from_le_bytes}
use keymapper_rs.Common.Frame.Codec.{to_le_bytes-from_le_bytes}
use keymapper_rs.Common.Frame.Reader.{
  Delivery, Filled, FrameReader, payload_so_far, reset, after_header, check_header, read_payload,
}
use keymapper_rs.Common.Frame.Reader.Resume.{bytes_of, IsFilled, read_into-IsFilled}
use keymapper_rs.Common.Frame.Reader.Pending.{
  pending, Fits, Took, IsRead, is_transport, read_into_transport, nothing_taken, payload_phase,
}

-- The five bytes of a header that are below 256.
AreBytes : ℕ → ℕ → ℕ → ℕ → Type 0
AreBytes b0 b1 b2 b3 = (b0 < 256) × (b1 < 256) × (b2 < 256) × (b3 < 256)

-- The checks of a full header, and what follows.
after_header-IsRead :
    (max_payload v b0 b1 b2 b3 : ℕ) (reader : List Delivery) (payload : Option (List ℕ))
    → AreBytes b0 b1 b2 b3
    → Fits max_payload (v ∷ b0 ∷ b1 ∷ b2 ∷ b3 ∷ []) payload
    → let r : FrameReader = record {
      reader = reader;
      header = v ∷ b0 ∷ b1 ∷ b2 ∷ b3 ∷ [];
      payload = payload;
    } in
      IsRead max_payload r (after_header max_payload r (v ∷ b0 ∷ b1 ∷ b2 ∷ b3 ∷ []))
unfolding after_header AreBytes reset payload_so_far
after_header-IsRead max_payload v b0 b1 b2 b3 reader none (l0, l1, l2, l3) fits =
    let len = from_le_bytes b0 b1 b2 b3 in
    let bytes = to_le_bytes-from_le_bytes b0 b1 b2 b3 l0 l1 l2 l3 in
    elim (Bool-cases (v == frame_version)) [
      | inr other ↦
          rw (other, after_header)
            (record { took = (b0, b1, b2, b3, refl, other); resumable = omega arith })
      | inl same ↦
          let version = (==_iff v frame_version).0 same in
          elim (Bool-cases (ltb max_payload len)) [
            | inl over ↦
                rw (same, over, after_header)
                  (record {
                    took = (
                      ap₂ (λ x l. x ∷ l ++ bytes_of reader) version (sym bytes),
                      ltb→lt max_payload len over,
                    );
                    resumable = omega arith;
                  })
            | inr within ↦
                rw (same, within, after_header)
                  (payload_phase max_payload v b0 b1 b2 b3 _ version refl bytes
                    (ground (arith, within)) (omega arith))
          ]
    ]
after_header-IsRead max_payload v b0 b1 b2 b3 reader (some p) (l0, l1, l2, l3) fits =
    let (c0, c1, c2, c3, head, bound, room) = fits in
    let bytes = to_le_bytes-from_le_bytes b0 b1 b2 b3 l0 l1 l2 l3 in
    let version : v ≡ frame_version = cc head in
    let same_len : from_le_bytes b0 b1 b2 b3 ≡ from_le_bytes c0 c1 c2 c3 = cc head in
    rw
      (
        (==_iff v frame_version).1 version,
        within (from_le_bytes b0 b1 b2 b3) (omega (arith, same_len, bound)),
        after_header,
      )
      (payload_phase max_payload v b0 b1 b2 b3 _ version refl bytes (omega (arith, same_len, bound))
        (omega (arith, same_len, room)))
  where
    within : (len : ℕ) → len ≤ max_payload → ltb max_payload len ≡ false
    within len h = ground (arith, h)

full_header-IsRead :
    (max_payload : ℕ) (reader : List Delivery) (header : List ℕ) (payload : Option (List ℕ))
    → length header ≡ 5
    → All (λ b. b < 256) header
    → Fits max_payload header payload
    → let r : FrameReader = record { reader = reader; header = header; payload = payload } in
      IsRead max_payload r (after_header max_payload r header)
unfolding AreBytes
full_header-IsRead max_payload reader [] payload size bytes fits = absurd (omega (arith, size))
full_header-IsRead max_payload reader (v ∷ []) payload size bytes fits =
    absurd (omega (arith, size))
full_header-IsRead max_payload reader (v ∷ b0 ∷ []) payload size bytes fits =
    absurd (omega (arith, size))
full_header-IsRead max_payload reader (v ∷ b0 ∷ b1 ∷ []) payload size bytes fits =
    absurd (omega (arith, size))
full_header-IsRead max_payload reader (v ∷ b0 ∷ b1 ∷ b2 ∷ []) payload size bytes fits =
    absurd (omega (arith, size))
full_header-IsRead max_payload reader (v ∷ b0 ∷ b1 ∷ b2 ∷ b3 ∷ []) payload size
      (lv, (l0, (l1, (l2, (l3, _))))) fits =
    after_header-IsRead max_payload v b0 b1 b2 b3 reader payload (l0, l1, l2, l3) fits
full_header-IsRead max_payload reader (v ∷ b0 ∷ b1 ∷ b2 ∷ b3 ∷ x ∷ xs) payload size bytes fits =
    absurd (omega (arith, size))

All-append : (xs ys : List ℕ) → All (λ b. b < 256) (xs ++ ys) → All (λ b. b < 256) xs
All-append [] ys bytes = ground arith
All-append (x ∷ xs) ys (b, bytes) = (b, All-append xs ys bytes)

same_pending :
    (max_payload : ℕ) (r r' : FrameReader) (result : FrameReader × Result FrameError (List ℕ))
    → pending r' ≡ pending r
    → IsRead max_payload r' result
    → IsRead max_payload r result
same_pending max_payload r r' result same read = record {
  took = subst (λ b. Took max_payload b (pending (result.0)) (result.1)) same read.took;
  resumable = read.resumable;
}

-- The header phase has run, for a reader that has not begun a payload.
check_header-IsRead :
    (max_payload : ℕ) (reader : List Delivery) (header : List ℕ) (filled : Filled)
    → All (λ b. b < 256) (header ++ bytes_of reader)
    → is_transport filled.error ≡ true
    → IsFilled 5 reader header filled
    → let r : FrameReader = record { reader = reader; header = header; payload = none } in
      IsRead max_payload r (check_header max_payload r filled)
unfolding check_header payload_so_far
check_header-IsRead max_payload reader header filled bytes transport f =
    elim (Option-cases filled.error) [
      | inr (e, failed) ↦
          rw (failed, check_header)
            (record {
              took =
                  nothing_taken max_payload (header ++ bytes_of reader)
                    (filled.buf ++ bytes_of filled.reader) e
                    (ap is_transport (sym failed) ∙ transport) f.kept;
              resumable = f.bound;
            })
      | inl none_failed ↦
          let read =
            full_header-IsRead max_payload filled.reader filled.buf none (f.full none_failed)
              (All-append filled.buf (bytes_of filled.reader)
                (subst (All (λ b. b < 256)) (sym f.kept) bytes))
              f.bound in
          rw (none_failed, check_header) (same_pending max_payload _ _ _ f.kept read)
    ]

-- A reader loses no byte and takes whole frames only. For a reader that is idle, within a header or
-- within the payload of an accepted header, and bytes that are numbers below 256: a call that
-- returns a payload has taken exactly its frame from the bytes that were to be read, and the payload
-- is within the bound; a call that refuses the version or the length has taken exactly the five
-- bytes of the header; a call that fails otherwise has taken nothing. The reader is again in such a
-- state after each of them.
pub read_payload-IsRead :
    (max_payload : ℕ) (r : FrameReader)
    → All (λ b. b < 256) (pending r)
    → Fits max_payload r.header r.payload
    → IsRead max_payload r (read_payload max_payload r)
unfolding read_payload payload_so_far check_header
read_payload-IsRead max_payload r bytes fits = go r.reader r.header r.payload bytes fits
  where
    go :
        (reader : List Delivery) (header : List ℕ) (payload : Option (List ℕ))
        → let r' : FrameReader = record { reader = reader; header = header; payload = payload } in
          All (λ b. b < 256) (pending r')
          → Fits max_payload header payload
          → IsRead max_payload r' (read_payload max_payload r')
    go reader header none bytes fits = elim (Bool-cases (ltb (length header) 5)) [
      | inl more ↦
          rw (more, read_payload)
            (check_header-IsRead max_payload reader header _ bytes
              (read_into_transport 5 reader header) (read_into-IsFilled 5 reader header fits))
      | inr done ↦
          rw (done, read_payload)
            (full_header-IsRead max_payload reader header none (ground (arith, fits, done))
              (All-append header (bytes_of reader) bytes) fits)
    ]
    go reader header (some p) bytes (b0, b1, b2, b3, head, bound, room) =
        let size : length header ≡ 5 = ap length head in
        let done : ltb (length header) 5 ≡ false = ground (arith, size) in
        rw (done, read_payload)
          (full_header-IsRead max_payload reader header (some p) size
            (All-append header (p ++ bytes_of reader) bytes) (b0, b1, b2, b3, head, bound, room))
