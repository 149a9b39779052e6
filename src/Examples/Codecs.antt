-- ===== src/Examples/Codecs.antt =====
-- Frames of a short payload and of a batch of keys.
use keymapper_rs.Prelude.{none}
use keymapper_rs.Prelude.{
  ℕ, ◌<◌, ◌≤◌, ◌≡◌, refl, List, [], ◌∷◌, ◌++◌, arith, length, take, ltb, if◌then◌else◌, All,
}
use keymapper_rs.Common.HidUsage.{HidUsage}
use keymapper_rs.Common.Frame.{FrameError, Result, encode, parse}
use keymapper_rs.Common.Frame.Reader.{ErrorKind, Delivery, read_into, read_payload}
use keymapper_rs.Common.Frame.Reader.Resume.{IsFilled, read_into-IsFilled}
use keymapper_rs.Common.Frame.Codec.{parse-encode, parse-ok}
use keymapper_rs.Core.Rules.{NativeKey}
use keymapper_rs.Platform.IpcFrame.{max_keys_per_frame}
use keymapper_rs.Platform.IpcFrame
use keymapper_rs.Platform.IpcFrame.RoundTrip.{decode-encode}

abbrev payload : List ℕ
payload = 79 ∷ 75 ∷ []

layout_is_exact : encode payload ≡ 1 ∷ 2 ∷ 0 ∷ 0 ∷ 0 ∷ 79 ∷ 75 ∷ []
unfolding encode
layout_is_exact = refl

accepted : parse (1 ∷ 2 ∷ 0 ∷ 0 ∷ 0 ∷ 79 ∷ 75 ∷ 9 ∷ []) 256 ≡ Result.ok payload
unfolding parse
accepted = refl

refused : parse (1 ∷ 5 ∷ 0 ∷ 0 ∷ 0 ∷ 79 ∷ []) 256 ≡ Result.err (FrameError.truncated 9 5)
unfolding parse
refused = refl

parse-encode_example : parse (encode payload ++ 9 ∷ []) 256 ≡ (
    if ltb 256 (length payload)
    then Result.err (FrameError.payload_too_large (length payload))
    else Result.ok payload)
parse-encode_example = parse-encode payload (9 ∷ []) 256 (omega arith)

frame_bytes : All (λ b. b < 256) (1 ∷ 2 ∷ 0 ∷ 0 ∷ 0 ∷ 79 ∷ 75 ∷ 9 ∷ [])
frame_bytes = ground arith

parse-ok_example :
    (length payload ≤ 256)
    × ((extra : List ℕ) × (1 ∷ 2 ∷ 0 ∷ 0 ∷ 0 ∷ 79 ∷ 75 ∷ 9 ∷ [] ≡ encode payload ++ extra))
parse-ok_example = parse-ok (1 ∷ 2 ∷ 0 ∷ 0 ∷ 0 ∷ 79 ∷ 75 ∷ 9 ∷ []) payload 256 frame_bytes accepted

abbrev keys : List NativeKey
keys =
    record { modifiers = 2; usage = HidUsage.key_e }
    ∷ record { modifiers = 0; usage = HidUsage.key_a }
    ∷ []

decode-encode_example :
    IpcFrame.decode (IpcFrame.encode keys) ≡ Result.ok (take max_keys_per_frame keys)
decode-encode_example = decode-encode keys

-- A timeout after three bytes, and the next frame in the same chunk as the rest.
abbrev stream : List Delivery
stream =
    Delivery.chunk (1 ∷ 2 ∷ 0 ∷ [])
    ∷ Delivery.fails ErrorKind.would_block
    ∷ Delivery.chunk (0 ∷ 0 ∷ 79 ∷ 75 ∷ 1 ∷ [])
    ∷ []

read_into-IsFilled_example : IsFilled 5 stream [] (read_into 5 stream [])
read_into-IsFilled_example = read_into-IsFilled 5 stream [] (omega arith)

-- The read that times out keeps the three bytes, and the next call reads the frame.
resumed :
    (read_payload 256
      (read_payload 256 (record { reader = stream; header = []; payload = none })).0).1
    ≡ Result.ok payload
unfolding read_payload read_into
resumed = refl
