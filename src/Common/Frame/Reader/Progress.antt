-- ===== src/Common/Frame/Reader/Progress.antt =====
-- src/common/frame.rs, `FrameReader::read_payload`: a stream that has a whole frame to deliver.
use keymapper_rs.Prelude.{
  ℕ, zero, suc, drop, ◌-◌, ◌+◌, ◌<◌, ◌≤◌, ◌≡◌, refl, sym, ap, ap₂, ◌∙◌, inl, inr, false, List, [],
  ◌∷◌, ◌++◌, none, some, arith, length, Option, ltb, ◌==◌, Bool-cases, length-append,
}
use keymapper_rs.Common.Frame.{
  FrameError, Result, ok, encode, frame_version, to_le_bytes, from_le_bytes,
}
use keymapper_rs.Common.Frame.Codec.{from_le_bytes-to_le_bytes}
use keymapper_rs.Common.Frame.Reader.{
  ErrorKind, Delivery, Filled, FrameReader, read_into, payload_so_far, finish, after_header,
  check_header, read_payload,
}
use keymapper_rs.Common.Frame.Reader.Resume.{bytes_of, IsFilled, read_into-IsFilled}
use keymapper_rs.Common.Frame.Reader.Pending.{pending, Fits}

-- The stream is only ever interrupted, and no read of it returns nothing.
abbrev pub Flows : List Delivery → Type 0
Flows [] = 0 ≤ 0
Flows (Delivery.chunk bytes ∷ reader) = (0 < length bytes) × Flows reader
Flows (Delivery.fails kind ∷ reader) = (kind ≡ ErrorKind.interrupted) × Flows reader

record IsServed (f : Filled) : Type 0 where
  no_error : f.error ≡ none
  flows : Flows f.reader

length-drop_positive : (n : ℕ) (xs : List ℕ) → n < length xs → 0 < length (drop n xs)
length-drop_positive zero xs h = h
length-drop_positive (suc n) [] h = absurd (omega (arith, h))
length-drop_positive (suc n) (x ∷ xs) h = length-drop_positive n xs (omega (arith, h))

-- If the stream has enough bytes, the buffer is filled.
read_into-IsServed :
    (len : ℕ) (reader : List Delivery) (buf : List ℕ)
    → Flows reader
    → len ≤ length buf + length (bytes_of reader)
    → IsServed (read_into len reader buf)
unfolding read_into
read_into-IsServed len [] buf flows enough =
    let done : ltb (length buf) len ≡ false = ground (arith, enough) in
    rw (done, read_into) (record { no_error = refl; flows = flows })
read_into-IsServed len (Delivery.chunk bytes ∷ reader) buf (some_bytes, flows) enough =
    let present : (length bytes == 0) ≡ false = ground (arith, some_bytes) in
    elim (Bool-cases (ltb (length buf) len)) [
      | inr done ↦ rw (done, read_into) (record { no_error = refl; flows = (some_bytes, flows) })
      | inl more ↦ elim (Bool-cases (ltb (len - length buf) (length bytes))) [
        | inl over ↦
            rw (more, present, over, read_into)
              (record {
                no_error = refl;
                flows =
                    (length-drop_positive (len - length buf) bytes (ground (arith, over)), flows);
              })
        | inr rest ↦
            rw (more, present, rest, read_into)
              (read_into-IsServed len reader (buf ++ bytes) flows (
                omega
                  (arith, enough, length-append buf bytes, length-append bytes (bytes_of reader))))
      ]
    ]
read_into-IsServed len (Delivery.fails ErrorKind.interrupted ∷ reader) buf (again, flows) enough =
    elim (Bool-cases (ltb (length buf) len)) [
      | inr done ↦ rw (done, read_into) (record { no_error = refl; flows = (again, flows) })
      | inl more ↦ rw (more, read_into) (read_into-IsServed len reader buf flows enough)
    ]
read_into-IsServed len (Delivery.fails ErrorKind.unexpected_eof ∷ reader) buf (again, flows)
      enough =
    cc again
read_into-IsServed len (Delivery.fails ErrorKind.would_block ∷ reader) buf (again, flows) enough =
    cc again
read_into-IsServed len (Delivery.fails ErrorKind.other ∷ reader) buf (again, flows) enough =
    cc again

append_split :
    (xs ys u w : List ℕ) → length xs ≡ length ys → xs ++ u ≡ ys ++ w → (xs ≡ ys) × (u ≡ w)
append_split [] [] u w size h = (refl, h)
append_split [] (y ∷ ys) u w size h = absurd (omega (arith, size))
append_split (x ∷ xs) [] u w size h = absurd (omega (arith, size))
append_split (x ∷ xs) (y ∷ ys) u w size h =
    let (tails, rests) = append_split xs ys u w (omega (arith, size)) (cc h) in
    (ap₂ (λ z zs. z ∷ zs) (cc h) tails, rests)

-- What a call leaves that returns the payload `p`, of a stream that goes on with `extra`.
pub record IsDelivered (p extra : List ℕ) (result : FrameReader × Result FrameError (List ℕ))
    : Type 0 where
  pub payload : result.1 ≡ ok p
  pub left : pending (result.0) ≡ extra
  pub flows : Flows (result.0).reader
  pub idle : ((result.0).header ≡ []) × ((result.0).payload ≡ none)

-- The payload phase.
finish-IsDelivered :
    (header p extra so_far : List ℕ) (reader : List Delivery)
    → Flows reader
    → length so_far ≤ length p
    → so_far ++ bytes_of reader ≡ p ++ extra
    → IsDelivered p extra (finish header (read_into (length p) reader so_far))
unfolding finish payload_so_far
finish-IsDelivered header p extra so_far reader flows room same =
    let f = read_into-IsFilled (length p) reader so_far room in
    let served = read_into-IsServed (length p) reader so_far flows (
      omega
        (arith, ap length same, length-append so_far (bytes_of reader), length-append p extra)) in
    let (whole, rest) = append_split _ p _ extra (f.full served.no_error) (f.kept ∙ same) in
    rw (served.no_error, finish)
      (record { payload = ap ok whole; left = rest; flows = served.flows; idle = (refl, refl) })

abbrev header_of : List ℕ → List ℕ
unfolding to_le_bytes
header_of p = frame_version ∷ to_le_bytes (length p)

-- The header of `p` is complete.
after_header-IsDelivered :
    (max_payload : ℕ) (p extra header : List ℕ) (reader : List Delivery) (payload : Option (List ℕ))
    → length p ≤ max_payload
    → length p < 4294967296
    → header ≡ header_of p
    → Flows reader
    → length (payload_so_far payload) ≤ length p
    → payload_so_far payload ++ bytes_of reader ≡ p ++ extra
    → IsDelivered p extra (
        after_header max_payload
          (record { reader = reader; header = header; payload = payload })
          header)
unfolding after_header to_le_bytes
after_header-IsDelivered max_payload p extra header reader payload bound small head flows room
      same =
    let within : ltb max_payload (length p) ≡ false = ground (arith, bound) in
    rw (head, from_le_bytes-to_le_bytes (length p) small, within, after_header)
      (finish-IsDelivered (header_of p) p extra (payload_so_far payload) reader flows room same)

-- The header phase has run, for a reader that has not begun a payload.
check_header-IsDelivered :
    (max_payload : ℕ) (p extra header : List ℕ) (reader : List Delivery) (filled : Filled)
    → length p ≤ max_payload
    → length p < 4294967296
    → header ++ bytes_of reader ≡ encode p ++ extra
    → IsFilled 5 reader header filled
    → IsServed filled
    → IsDelivered p extra (
        check_header max_payload
          (record { reader = reader; header = header; payload = none })
          filled)
unfolding check_header encode to_le_bytes payload_so_far
check_header-IsDelivered max_payload p extra header reader filled bound small same f served =
    let (head, rest) =
      append_split filled.buf (header_of p) (bytes_of filled.reader) (p ++ extra)
        (f.full served.no_error) (f.kept ∙ same) in
    rw (served.no_error, check_header)
      (after_header-IsDelivered max_payload p extra filled.buf filled.reader none bound small head
        served.flows (omega arith) rest)

-- A frame that is delivered is read. If the stream is only ever interrupted, no read of it returns
-- nothing, and what is to be read begins with the frame of a payload within the bound, of fewer than
-- 2 ^ 32 bytes, then a call returns the payload, wherever in the frame the reader stands and
-- however the stream is cut; what follows the frame is left for the next call,
-- and the reader is idle.
pub read_payload-encode :
    (max_payload : ℕ) (r : FrameReader) (p extra : List ℕ)
    → Flows r.reader
    → Fits max_payload r.header r.payload
    → length p ≤ max_payload
    → length p < 4294967296
    → pending r ≡ encode p ++ extra
    → IsDelivered p extra (read_payload max_payload r)
unfolding read_payload payload_so_far check_header encode to_le_bytes
read_payload-encode max_payload r p extra flows fits bound small same =
    go r.reader r.header r.payload flows fits same
  where
    go :
        (reader : List Delivery) (header : List ℕ) (payload : Option (List ℕ))
        → let r' : FrameReader = record { reader = reader; header = header; payload = payload } in
          Flows reader
          → Fits max_payload header payload
          → pending r' ≡ encode p ++ extra
          → IsDelivered p extra (read_payload max_payload r')
    go reader header none flows fits same = elim (Bool-cases (ltb (length header) 5)) [
      | inl more ↦
          rw (more, read_payload)
            (check_header-IsDelivered max_payload p extra header reader _ bound small same
              (read_into-IsFilled 5 reader header fits)
              (read_into-IsServed 5 reader header flows (
                omega (
                  arith,
                  ap length same,
                  length-append header (bytes_of reader),
                  length-append p extra,
                ))))
      | inr done ↦
          rw (done, read_payload)
            (check_header-IsDelivered max_payload p extra header reader
              (record { reader = reader; buf = header; error = none }) bound small same
              (record { kept = refl; bound = fits; full = λ h. ground (arith, fits, done) })
              (record { no_error = refl; flows = flows }))
    ]
    go reader header (some q) flows (b0, b1, b2, b3, head, _, room) same =
        let done : ltb (length header) 5 ≡ false = ground (arith, ap length head) in
        let (at_header, rest) =
          append_split header (header_of p) (q ++ bytes_of reader) (p ++ extra) (ap length head)
            same in
        let fields = sym head ∙ at_header in
        let len : from_le_bytes b0 b1 b2 b3 ≡ length p =
          cc (fields, from_le_bytes-to_le_bytes (length p) small) in
        rw (done, read_payload)
          (after_header-IsDelivered max_payload p extra header reader (some q) bound small at_header
            flows (omega (arith, room, len)) rest)
