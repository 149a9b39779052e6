-- ===== src/Common/Frame/Reader.antt =====
-- src/common/frame.rs, `FrameReader`: reading frames from a stream that may break off at any byte.
-- The stream is what the peer and the system have yet to deliver, in order: chunks of bytes and
-- errors of single reads, and then the end. A read takes what fits of the first chunk. A buffer and
-- the count of its valid bytes are the list of the valid bytes; the rest of a buffer is never read.
pub mod Resume
pub mod Pending
pub mod Exact
pub mod Progress
use keymapper_rs.Prelude.{
  ℕ, ◌-◌, not, List, [], ◌∷◌, ◌++◌, Option, none, some, ◌==◌, ltb, if◌then◌else◌, length, take,
  drop,
}
use keymapper_rs.Common.Frame.{FrameError, Result, ok, err, frame_version, from_le_bytes}

pub data ErrorKind : Type 0 where
  unexpected_eof interrupted would_block other : ErrorKind

pub data Delivery : Type 0 where
  chunk : List ℕ → Delivery
  fails : ErrorKind → Delivery

pub record FrameReader : Type 0 where
  pub reader : List Delivery
  pub header : List ℕ
  pub payload : Option (List ℕ)

-- What `read_into` leaves: the stream, the valid bytes, and the error if there was one.
pub record Filled : Type 0 where
  pub reader : List Delivery
  pub buf : List ℕ
  pub error : Option FrameError

-- The loop of `read_into`, for a buffer of `len` bytes. A read of nothing is the end of the stream.
unfoldable pub read_into : ℕ → List Delivery → List ℕ → Filled
read_into len [] buf =
    if ltb (length buf) len
    then record { reader = []; buf = buf; error = some FrameError.eof }
    else record { reader = []; buf = buf; error = none }
read_into len (chunk bytes ∷ reader) buf =
    let room = len - length buf in
    let rest = read_into len reader (buf ++ bytes) in
    if not (ltb (length buf) len)
    then record { reader = chunk bytes ∷ reader; buf = buf; error = none }
    else if length bytes == 0
    then record { reader = reader; buf = buf; error = some FrameError.eof }
    else if ltb room (length bytes)
    then record {
      reader = chunk (drop room bytes) ∷ reader;
      buf = buf ++ take room bytes;
      error = none;
    }
    else rest
read_into len (fails kind ∷ reader) buf =
    let rest = read_into len reader buf in
    if not (ltb (length buf) len)
    then record { reader = fails kind ∷ reader; buf = buf; error = none }
    else elim kind [
      | ErrorKind.unexpected_eof ↦ record {
        reader = reader;
        buf = buf;
        error = some FrameError.eof;
      }
      | ErrorKind.interrupted ↦ rest
      | _ ↦ record { reader = reader; buf = buf; error = some FrameError.io }
    ]

unfoldable pub reset : FrameReader → FrameReader
reset r = record { reader = r.reader; header = []; payload = none }

-- The payload, as far as it is read.
unfoldable pub payload_so_far : Option (List ℕ) → List ℕ
payload_so_far none = []
payload_so_far (some bytes) = bytes

-- The end of `read_payload`, once the payload phase has run.
unfoldable pub finish : List ℕ → Filled → FrameReader × Result FrameError (List ℕ)
finish header filled = elim filled.error [
  | some e ↦ (record { reader = filled.reader; header = header; payload = some filled.buf }, err e)
  | none ↦ (record { reader = filled.reader; header = []; payload = none }, ok filled.buf)
]

-- The version and the length of a full header, and the payload phase. A header has five bytes here.
unfoldable pub after_header : ℕ → FrameReader → List ℕ → FrameReader × Result FrameError (List ℕ)
unfolding reset payload_so_far finish read_into
after_header max_payload r (version ∷ b0 ∷ b1 ∷ b2 ∷ b3 ∷ []) =
    let len = from_le_bytes b0 b1 b2 b3 in
    if not (version == frame_version)
    then (reset r, err (FrameError.unsupported_version version))
    else if ltb max_payload len
    then (reset r, err (FrameError.payload_too_large len))
    else finish (version ∷ b0 ∷ b1 ∷ b2 ∷ b3 ∷ [])
        (read_into len r.reader (payload_so_far r.payload))
after_header max_payload r header = (r, err FrameError.eof)

-- The header phase has run.
unfoldable pub check_header : ℕ → FrameReader → Filled → FrameReader × Result FrameError (List ℕ)
unfolding after_header
check_header max_payload r filled =
    let r' : FrameReader = record {
      reader = filled.reader;
      header = filled.buf;
      payload = r.payload;
    } in
    elim filled.error [ some e ↦ (r', err e) | none ↦ after_header max_payload r' filled.buf ]

-- `read_into` is not called for a full header, and would do nothing.
unfoldable pub read_payload : ℕ → FrameReader → FrameReader × Result FrameError (List ℕ)
unfolding check_header read_into
read_payload max_payload r = check_header max_payload r (
    if ltb (length r.header) 5
    then read_into 5 r.reader r.header
    else record { reader = r.reader; buf = r.header; error = none })
