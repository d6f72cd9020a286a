-- ===== src/Proto/Frame.antt =====
-- Length-prefixed framing: agent/crates/sr-proto/src/frame.rs. A stream is the list of the bytes
-- that are still to be read, and it ends where the list ends; a `String` is its UTF-8 bytes.
use session_restore.Common.{
  ℕ, zero, suc, ◌+◌, ◌*◌, ◌/◌, ◌%◌, ◌^◌, Bool, Option, none, some, List, [], ◌∷◌, ◌++◌, ◌==◌, ℕ_eq,
  ltb, if◌then◌else◌, length,
}
use session_restore.Proto.Utf8.{is_utf8}
pub mod RoundTrip
pub mod Progress

abbrev pub max_inbound_bytes : ℕ
max_inbound_bytes = 1024 * 1024

abbrev pub max_outbound_bytes : ℕ
max_outbound_bytes = 16 * 1024 * 1024

-- `io` is the `UnexpectedEof` of `read_exact`: a list has no other way to fail.
pub data FrameError : Type 0 where
  io closed not_utf8 : FrameError
  too_large : ℕ → ℕ → FrameError

pub data Framed {ℓ} (A : Type ℓ) : Type ℓ where
  ok : A → Framed A
  err : FrameError → Framed A

-- `read_exact` of `n` bytes: the bytes and the rest, or nothing when the stream is shorter.
unfoldable pub read_exact : ℕ → List ℕ → Option (List ℕ × List ℕ)
read_exact zero bs = some ([], bs)
read_exact (suc n) [] = none
read_exact (suc n) (b ∷ bs) = elim (read_exact n bs) [
  | none ↦ none
  | some (front, rest) ↦ some (b ∷ front, rest)
]

-- `u32::to_le_bytes` and `u32::from_le_bytes`.
unfoldable pub to_le_bytes : ℕ → List ℕ
to_le_bytes n = n % 256 ∷ n / 256 % 256 ∷ n / 65536 % 256 ∷ n / 16777216 % 256 ∷ []

unfoldable pub from_le_bytes : List ℕ → ℕ
from_le_bytes [] = 0
from_le_bytes (b ∷ bs) = b + 256 * from_le_bytes bs

-- What follows the header: the length checks, the body and its encoding.
unfoldable pub read_body : ℕ → ℕ → List ℕ → Framed (List ℕ × List ℕ)
unfolding read_exact
read_body max len rest =
    if ltb max len
    then err (too_large len max)
    else if len == 0
    then err not_utf8
    else elim (read_exact len rest) [
      | none ↦ err io
      | some (buf, rest') ↦ if is_utf8 buf then ok (buf, rest') else err not_utf8
    ]

unfoldable pub read_frame : List ℕ → ℕ → Framed (List ℕ × List ℕ)
unfolding read_body read_exact from_le_bytes
read_frame r max = elim (read_exact 4 r) [
  | none ↦ err closed
  | some (len_buf, rest) ↦ read_body max (from_le_bytes len_buf) rest
]

-- The bytes that `write_all` appends to the stream; a length above `u32::MAX` is refused first.
unfoldable pub write_frame : List ℕ → ℕ → Framed (List ℕ)
unfolding to_le_bytes
write_frame payload max =
    let len = length payload in
    if ltb 0xffff_ffff len
    then err (too_large 0xffff_ffff max)
    else if ltb max len
    then err (too_large len max)
    else ok (to_le_bytes len ++ payload)
