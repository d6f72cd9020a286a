-- ===== src/Proto/Utf8.antt =====
-- `String::from_utf8` of the Rust standard library, on bytes: the well-formed sequences of the
-- Unicode standard (no surrogates, no overlong forms, nothing above U+10FFFF).
use session_restore.Common.{ℕ, Bool, true, false, ◌&&◌, List, [], ◌∷◌, leb, if◌then◌else◌}

abbrev between : ℕ → ℕ → ℕ → Bool
between lo hi b = leb lo b && leb b hi

abbrev tail_byte : ℕ → Bool
tail_byte b = between 0x80 0xbf b

-- The second byte that a lead byte of a three-byte or four-byte sequence allows.
abbrev second_of_three : ℕ → ℕ → Bool
second_of_three a b =
    if between 0xe0 0xe0 a
    then between 0xa0 0xbf b
    else if between 0xed 0xed a
    then between 0x80 0x9f b
    else tail_byte b

abbrev second_of_four : ℕ → ℕ → Bool
second_of_four a b =
    if between 0xf0 0xf0 a
    then between 0x90 0xbf b
    else if between 0xf4 0xf4 a
    then between 0x80 0x8f b
    else tail_byte b

-- What a run has still to see: nothing, or some bytes behind a lead byte.
pub data Pending : Type 0 where
  start : Pending
  second_three second_four : ℕ → Pending
  last_two last_one : Pending

-- One byte; `false` with any state is a refusal.
unfoldable pub utf8_step : Pending → ℕ → Bool × Pending
utf8_step start a =
    if leb a 0x7f
    then (true, start)
    else if between 0xc2 0xdf a
    then (true, last_one)
    else if between 0xe0 0xef a
    then (true, second_three a)
    else if between 0xf0 0xf4 a
    then (true, second_four a)
    else (false, start)
utf8_step (second_three a) b = (second_of_three a b, last_one)
utf8_step (second_four a) b = (second_of_four a b, last_two)
utf8_step last_two b = (tail_byte b, last_one)
utf8_step last_one b = (tail_byte b, start)

abbrev is_start : Pending → Bool
is_start start = true
is_start _ = false

unfoldable pub utf8_from : Pending → List ℕ → Bool
unfolding utf8_step
utf8_from s [] = is_start s
utf8_from s (b ∷ bs) = (utf8_step s b).0 && utf8_from (utf8_step s b).1 bs

unfoldable pub is_utf8 : List ℕ → Bool
unfolding utf8_from
is_utf8 bytes = utf8_from start bytes
