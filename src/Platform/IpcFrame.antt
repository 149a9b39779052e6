-- ===== src/Platform/IpcFrame.antt =====
-- src/platform/macos/ipc_frame.rs: the frames of mapped keys that the tap sends to the emitter.
pub mod RoundTrip
pub mod Stream
use keymapper_rs.Prelude.{
  ℕ, zero, suc, ◌+◌, ◌*◌, List, [], ◌∷◌, ◌++◌, Option, none, some, ltb, if◌then◌else◌, length, take,
  min,
}
use keymapper_rs.Common.HidUsage.{HidUsage, code, from_code}
use keymapper_rs.Common.Frame.{Result, ok, err, FrameError, to_le_bytes, from_le_bytes, parse}
use keymapper_rs.Common.Frame
use keymapper_rs.Common.Frame.Reader.{FrameReader, read_payload}
use keymapper_rs.Core.Rules.{NativeKey}

abbrev pub max_payload_len : ℕ
max_payload_len = 4096

abbrev pub max_keys_per_frame : ℕ
max_keys_per_frame = 64

pub data IpcFrameError : Type 0 where
  too_short : ℕ → IpcFrameError
  unsupported_version : ℕ → IpcFrameError
  payload_too_large : ℕ → IpcFrameError
  truncated : (need : ℕ) (have : ℕ) → IpcFrameError
  too_many_keys : ℕ → IpcFrameError
  unknown_usage : ℕ → IpcFrameError
  eof : IpcFrameError
  io : IpcFrameError

unfoldable pub from_frame_error : FrameError → IpcFrameError
from_frame_error (FrameError.too_short n) = too_short n
from_frame_error (FrameError.unsupported_version v) = unsupported_version v
from_frame_error (FrameError.payload_too_large n) = payload_too_large n
from_frame_error (FrameError.truncated need have) = truncated need have
from_frame_error FrameError.eof = eof
from_frame_error FrameError.io = io

-- The loop of `encode` over the keys.
unfoldable pub encode_keys : List NativeKey → List ℕ
unfolding to_le_bytes
encode_keys [] = []
encode_keys (key ∷ keys) = key.modifiers ∷ to_le_bytes (code key.usage) ++ encode_keys keys

unfoldable pub encode : List NativeKey → List ℕ
unfolding encode_keys to_le_bytes
encode keys =
    let key_count = min (length keys) max_keys_per_frame in
    Frame.encode (to_le_bytes key_count ++ encode_keys (take key_count keys))

unfoldable pub push_key :
    ℕ
    → ℕ
    → Option HidUsage
    → Result IpcFrameError (List NativeKey)
    → Result IpcFrameError (List NativeKey)
push_key modifiers hid_code none rest = err (unknown_usage hid_code)
push_key modifiers hid_code (some usage) (ok keys) =
    ok (record { modifiers = modifiers; usage = usage } ∷ keys)
push_key modifiers hid_code (some usage) (err e) = err e

-- The loop of `decode_payload` over the `count` keys, five bytes each. The indices are in range,
-- since the length was checked; a list that is too short, which the source would panic on, stands
-- for the truncation that the check reports.
unfoldable pub decode_keys : ℕ → List ℕ → Result IpcFrameError (List NativeKey)
unfolding push_key from_code
decode_keys zero bytes = ok []
decode_keys (suc count) (modifiers ∷ c0 ∷ c1 ∷ c2 ∷ c3 ∷ bytes) =
    let hid_code = from_le_bytes c0 c1 c2 c3 in
    push_key modifiers hid_code (from_code hid_code) (decode_keys count bytes)
decode_keys (suc count) bytes = err (truncated 5 (length bytes))

-- The key count is read: the bound, and the length that it asks for.
unfoldable pub decode_counted : ℕ → List ℕ → Result IpcFrameError (List NativeKey)
unfolding decode_keys
decode_counted key_count bytes =
    let expected = 4 + key_count * 5 in
    if ltb max_keys_per_frame key_count
    then err (too_many_keys key_count)
    else if ltb (4 + length bytes) expected
    then err (truncated expected (4 + length bytes))
    else decode_keys key_count bytes

unfoldable pub decode_payload : List ℕ → Result IpcFrameError (List NativeKey)
unfolding decode_counted
decode_payload (b0 ∷ b1 ∷ b2 ∷ b3 ∷ bytes) = decode_counted (from_le_bytes b0 b1 b2 b3) bytes
decode_payload payload = err (truncated 4 (length payload))

unfoldable pub decode_parsed : Result FrameError (List ℕ) → Result IpcFrameError (List NativeKey)
unfolding from_frame_error decode_payload
decode_parsed (ok payload) = decode_payload payload
decode_parsed (err e) = err (from_frame_error e)

unfoldable pub decode : List ℕ → Result IpcFrameError (List NativeKey)
unfolding decode_parsed
decode buf = decode_parsed (parse buf max_payload_len)

unfoldable pub decode_stream : FrameReader → FrameReader × Result IpcFrameError (List NativeKey)
unfolding read_payload decode_parsed
decode_stream reader =
    let read = read_payload max_payload_len reader in (read.0, decode_parsed read.1)
