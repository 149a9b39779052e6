-- ===== src/Platform/IpcFrame/Stream.antt =====
-- src/platform/macos/ipc_frame.rs: `decode_stream` on a stream of batches.
use keymapper_rs.Prelude.{
  ℕ, zero, suc, ◌≡◌, refl, ap, ap₂, ◌∙◌, List, [], ◌∷◌, ◌++◌, none, arith, length, take, map,
}
use keymapper_rs.Common.Frame.{Result, ok}
use keymapper_rs.Common.Frame.Reader.{FrameReader}
use keymapper_rs.Common.Frame.Reader.Resume.{append_assoc}
use keymapper_rs.Common.Frame.Reader.Pending.{pending}
use keymapper_rs.Common.Frame.Reader.Progress.{Flows, read_payload-encode}
use keymapper_rs.Core.Rules.{NativeKey}
use keymapper_rs.Platform.IpcFrame.{
  IpcFrameError, encode, decode_parsed, decode_stream, max_keys_per_frame, max_payload_len,
}
use keymapper_rs.Platform.IpcFrame.RoundTrip.{
  payload_of, few_taken, encode-eq, short, decode_payload-encode,
}

-- The frames of the batches, one after the other.
abbrev pub frames : List (List NativeKey) → List ℕ
frames [] = []
frames (keys ∷ batches) = encode keys ++ frames batches

-- Each result of that many calls, and the reader that they leave.
abbrev pub decode_batches :
    ℕ → FrameReader → List (Result IpcFrameError (List NativeKey)) × FrameReader
decode_batches zero reader = ([], reader)
decode_batches (suc n) reader =
    let one = decode_stream reader in let rest = decode_batches n one.0 in (one.1 ∷ rest.0, rest.1)

-- All batches that are sent arrive, in order. If the stream of an idle reader is only ever
-- interrupted, no read of it returns nothing, and it has the frames of the batches to deliver, then
-- as many calls as there are batches give each of them, cut to the first 64 keys if it is longer,
-- and leave what follows.
pub decode_batches-frames :
    (batches : List (List NativeKey)) (extra : List ℕ) (reader : FrameReader)
    → Flows reader.reader
    → (reader.header ≡ []) × (reader.payload ≡ none)
    → pending reader ≡ frames batches ++ extra
    → ((decode_batches (length batches) reader).0
        ≡ map (λ keys. ok (take max_keys_per_frame keys)) batches)
      × (pending (decode_batches (length batches) reader).1 ≡ extra)
unfolding decode_stream decode_parsed
decode_batches-frames [] extra reader flows idle same = (refl, same)
decode_batches-frames (keys ∷ batches) extra reader flows (no_header, no_payload) same =
    let cut = take 64 keys in
    let bound = short cut (few_taken keys) in
    let read =
      read_payload-encode max_payload_len reader (payload_of cut) (frames batches ++ extra) flows
        (rw (no_header, no_payload) (omega arith)) bound (omega (arith, bound))
        (same
          ∙ append_assoc (encode keys) (frames batches) extra
          ∙ ap (λ frame. frame ++ (frames batches ++ extra)) (encode-eq keys)) in
    let (rest, left) = decode_batches-frames batches extra _ read.flows read.idle read.left in
    (
      ap₂ (λ r rs. r ∷ rs)
          (ap decode_parsed read.payload ∙ decode_payload-encode cut (few_taken keys)) rest,
      left,
    )
