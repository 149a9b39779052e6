-- ===== src/Examples/Streams.antt =====
-- Frames read from streams that break off.
use keymapper_rs.Prelude.{◌≡◌, refl, List, [], ◌∷◌, ◌++◌, none, some, arith, take, map, All, ◌<◌}
use keymapper_rs.Common.HidUsage.{HidUsage, code}
use keymapper_rs.Common.Frame
use keymapper_rs.Common.Frame.{Result, ok}
use keymapper_rs.Common.Frame.Reader.{
  ErrorKind, Delivery, FrameReader, read_payload, payload_so_far,
}
use keymapper_rs.Common.Frame.Reader.Pending.{pending, IsRead}
use keymapper_rs.Common.Frame.Reader.Exact.{read_payload-IsRead}
use keymapper_rs.Common.Frame.Reader.Progress.{IsDelivered, read_payload-encode}
use keymapper_rs.Core.Rules.{NativeKey}
use keymapper_rs.Platform.IpcFrame.{max_keys_per_frame, encode}
use keymapper_rs.Platform.IpcFrame.Stream.{frames, decode_batches, decode_batches-frames}

-- A reader within the payload of a frame of two bytes, of which the stream has the other after a
-- timeout, and then the version byte of the next frame.
abbrev within_payload : FrameReader
within_payload = record {
  reader = Delivery.fails ErrorKind.would_block ∷ Delivery.chunk (75 ∷ 1 ∷ []) ∷ [];
  header = 1 ∷ 2 ∷ 0 ∷ 0 ∷ 0 ∷ [];
  payload = some (79 ∷ []);
}

within_payload_bytes : All (λ b. b < 256) (pending within_payload)
unfolding payload_so_far
within_payload_bytes = ground arith

read_payload-IsRead_example : IsRead 256 within_payload (read_payload 256 within_payload)
read_payload-IsRead_example =
    read_payload-IsRead 256 within_payload within_payload_bytes
      (2, 0, 0, 0, refl, omega arith, omega arith)

-- The same frame, interrupted within its header.
abbrev within_header : FrameReader
within_header = record {
  reader =
      Delivery.chunk (0 ∷ [])
      ∷ Delivery.fails ErrorKind.interrupted
      ∷ Delivery.chunk (0 ∷ 0 ∷ 79 ∷ 75 ∷ 1 ∷ [])
      ∷ [];
  header = 1 ∷ 2 ∷ [];
  payload = none;
}

one_frame : pending within_header ≡ Frame.encode (79 ∷ 75 ∷ []) ++ 1 ∷ []
unfolding payload_so_far Frame.encode
one_frame = refl

read_payload-encode_example : IsDelivered (79 ∷ 75 ∷ []) (1 ∷ []) (read_payload 256 within_header)
read_payload-encode_example =
    read_payload-encode 256 within_header (79 ∷ 75 ∷ []) (1 ∷ [])
      (omega arith, (refl, (omega arith, omega arith))) (omega arith) (omega arith) (omega arith)
      one_frame

abbrev batches : List (List NativeKey)
batches =
    (record { modifiers = 2; usage = HidUsage.key_e } ∷ [])
    ∷ (record { modifiers = 0; usage = HidUsage.key_a } ∷ [])
    ∷ []

abbrev sent : FrameReader
sent = record {
  reader =
      Delivery.chunk (1 ∷ 9 ∷ 0 ∷ 0 ∷ 0 ∷ 1 ∷ 0 ∷ 0 ∷ 0 ∷ 2 ∷ 8 ∷ 0 ∷ 7 ∷ 0 ∷ 1 ∷ 9 ∷ [])
      ∷ Delivery.fails ErrorKind.interrupted
      ∷ Delivery.chunk (0 ∷ 0 ∷ 0 ∷ 1 ∷ 0 ∷ 0 ∷ 0 ∷ 0 ∷ 4 ∷ 0 ∷ 7 ∷ 0 ∷ [])
      ∷ [];
  header = [];
  payload = none;
}

delivered : pending sent ≡ frames batches ++ []
unfolding encode payload_so_far Frame.encode code
delivered = refl

decode_batches-frames_example :
    ((decode_batches 2 sent).0 ≡ map (λ keys. ok (take max_keys_per_frame keys)) batches)
    × (pending (decode_batches 2 sent).1 ≡ [])
decode_batches-frames_example =
    decode_batches-frames batches [] sent (omega arith, (refl, (omega arith, omega arith)))
      (refl, refl) delivered
