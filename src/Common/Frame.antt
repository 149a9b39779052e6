-- ===== src/Common/Frame.antt =====
-- src/common/frame.rs: the framing envelope of the local channels, a version byte and a little-endian
-- payload length before the payload. Bytes are numbers below 256, `usize` is unbounded.
pub mod Codec
pub mod Reader
use keymapper_rs.Prelude.{
  ℕ, suc, ◌+◌, ◌*◌, ◌/◌, ◌%◌, ◌^◌, not, List, [], ◌∷◌, ◌++◌, ◌==◌, ltb, if◌then◌else◌, length, take,
}

abbrev pub frame_version : ℕ
frame_version = 1

pub data FrameError : Type 0 where
  too_short : ℕ → FrameError
  unsupported_version : ℕ → FrameError
  payload_too_large : ℕ → FrameError
  truncated : (need : ℕ) (have : ℕ) → FrameError
  eof : FrameError
  io : FrameError

-- `Result<A, E>`.
pub data Result {ℓ κ} (E : Type ℓ) (A : Type κ) : Type (ℓ ⊔ κ) where
  ok : A → Result E A
  err : E → Result E A

-- `(n as u32).to_le_bytes()` and `u32::from_le_bytes`.
unfoldable pub to_le_bytes : ℕ → List ℕ
to_le_bytes n = n % 256 ∷ n / 256 % 256 ∷ n / 65536 % 256 ∷ n / 16777216 % 256 ∷ []

abbrev pub from_le_bytes : ℕ → ℕ → ℕ → ℕ → ℕ
from_le_bytes b0 b1 b2 b3 = b0 + 256 * b1 + 65536 * b2 + 16777216 * b3

unfoldable pub encode : List ℕ → List ℕ
unfolding to_le_bytes
encode payload = frame_version ∷ to_le_bytes (length payload) ++ payload

-- The length field is read: the bound, and the slice `rest.get(4..4 + len)`.
parse_payload : ℕ → List ℕ → ℕ → Result FrameError (List ℕ)
parse_payload len body max_payload =
    if ltb max_payload len
    then err (FrameError.payload_too_large len)
    else if ltb (length body) len
    then err (FrameError.truncated (4 + len) (4 + length body))
    else ok (take len body)

-- What follows the version byte of a frame.
parse_rest : List ℕ → ℕ → Result FrameError (List ℕ)
unfolding parse_payload
parse_rest (b0 ∷ b1 ∷ b2 ∷ b3 ∷ body) max_payload =
    parse_payload (from_le_bytes b0 b1 b2 b3) body max_payload
parse_rest rest max_payload = err (FrameError.too_short (suc (length rest)))

unfoldable pub parse : List ℕ → ℕ → Result FrameError (List ℕ)
unfolding parse_rest
parse [] max_payload = err (FrameError.too_short 0)
parse (version ∷ rest) max_payload =
    if not (version == frame_version)
    then err (FrameError.unsupported_version version)
    else parse_rest rest max_payload
