-- ===== src/Proto/Frame/RoundTrip.antt =====
-- What the reader makes of the writer's bytes, and of a stream that stops early.
use session_restore.Common.{
  ℕ, zero, suc, ◌^◌, ◌≤◌, ◌<◌, ◌≡◌, ◌≢◌, refl, ap, true, none, some, List, [], ◌∷◌, ◌++◌, arith,
  length, All, Option-cases, inl, inr, ◌↔◌, ◌∙◌, ℕ_eq,
}
use mathlib.Core.List.{append_assoc}
use session_restore.Proto.Utf8.{is_utf8}
use session_restore.Proto.Frame.{
  ok, err, io, closed, read_exact, to_le_bytes, from_le_bytes, read_body, read_frame, write_frame,
}

read_exact-append : (xs ys : List ℕ) → read_exact (length xs) (xs ++ ys) ≡ some (xs, ys)
unfolding read_exact
read_exact-append [] ys = refl
read_exact-append (x ∷ xs) ys = rw (read_exact-append xs ys)

-- A short stream gives nothing.
read_exact_short : (n : ℕ) (xs : List ℕ) → length xs < n → read_exact n xs ≡ none
unfolding read_exact
read_exact_short zero xs h = absurd (omega arith)
read_exact_short (suc n) [] h = refl
read_exact_short (suc n) (x ∷ xs) h = rw (read_exact_short n xs (omega arith))

from_le_bytes-to_le_bytes : (n : ℕ) → n < 2 ^ 32 → from_le_bytes (to_le_bytes n) ≡ n
unfolding from_le_bytes to_le_bytes
from_le_bytes-to_le_bytes n h = omega arith

-- A read of `n` bytes splits the stream behind them.
pub read_exact_splits :
    (n : ℕ) (r front rest : List ℕ)
    → read_exact n r ≡ some (front, rest)
    → (r ≡ front ++ rest) × (length front ≡ n)
unfolding read_exact
read_exact_splits zero r front rest h = ground arith
read_exact_splits (suc n) [] front rest h = cc
read_exact_splits (suc n) (b ∷ bs) front rest h = elim (Option-cases (read_exact n bs)) [
  | inl e ↦ cc (rw (e, read_exact) at h)
  | inr ((f, q), e) ↦ let ih = read_exact_splits n bs f q e in ground (arith, e)
]

-- Behind a header the reader is at the body.
pub read_frame_header :
    (n max : ℕ) (rest : List ℕ)
    → n < 2 ^ 32
    → read_frame (to_le_bytes n ++ rest) max ≡ read_body max n rest
unfolding read_frame to_le_bytes
read_frame_header n max rest h =
    ap (λ k. read_body max k rest) (unfold to_le_bytes in from_le_bytes-to_le_bytes n h)

pub read_body-append :
    (max : ℕ) (payload rest : List ℕ)
    → 0 < length payload
    → length payload ≤ max
    → is_utf8 payload ≡ true
    → read_body max (length payload) (payload ++ rest) ≡ ok (payload, rest)
unfolding read_body
read_body-append max payload rest nonempty fits text =
    rw (read_exact-append payload rest) (ground arith)

write_frame-ok :
    (payload out : List ℕ) (max : ℕ)
    → write_frame payload max ≡ ok out
    → (length payload < 2 ^ 32) × (out ≡ to_le_bytes (length payload) ++ payload)
unfolding write_frame
write_frame-ok payload out max h = ground arith

read_body-ne-closed : (max n : ℕ) (rest : List ℕ) → read_body max n rest ≢ err closed
unfolding read_body
read_body-ne-closed max n rest h = ground arith

pub read_body_sound :
    (max n : ℕ) (q payload rest : List ℕ)
    → read_body max n q ≡ ok (payload, rest)
    → (read_exact n q ≡ some (payload, rest)) × (0 < n) × (n ≤ max) × (is_utf8 payload ≡ true)
unfolding read_body
read_body_sound max n q payload rest h = ground arith

to_le_bytes-from_le_bytes :
    (a b c d : ℕ)
    → a < 256
    → b < 256
    → c < 256
    → d < 256
    → to_le_bytes (from_le_bytes (a ∷ b ∷ c ∷ d ∷ [])) ≡ a ∷ b ∷ c ∷ d ∷ []
unfolding to_le_bytes from_le_bytes
to_le_bytes-from_le_bytes a b c d ha hb hc hd = ground arith

-- What the writer accepts, the reader gives back, whatever follows it on the stream, if it is
-- well-formed text that is not empty and fits the reader's limit.
pub read_frame-write_frame :
    (payload out rest : List ℕ) (max_out max_in : ℕ)
    → write_frame payload max_out ≡ ok out
    → 0 < length payload
    → length payload ≤ max_in
    → is_utf8 payload ≡ true
    → read_frame (out ++ rest) max_in ≡ ok (payload, rest)
unfolding write_frame
read_frame-write_frame payload out rest max_out max_in w nonempty fits text =
    let (small, e) = write_frame-ok payload out max_out w in
    rw (e, append_assoc)
      (read_frame_header (length payload) max_in (payload ++ rest) small
        ∙ read_body-append max_in payload rest nonempty fits text)

-- The reader says "closed" exactly on a stream that ends before a header is whole, wherever in the
-- header that is.
pub read_frame-closed_iff :
    (r : List ℕ) (max : ℕ) → (read_frame r max ≡ err closed) ↔ (length r < 4)
unfolding read_frame
read_frame-closed_iff [] max = ((λ h. omega arith), (λ h. refl))
read_frame-closed_iff (a ∷ []) max = ((λ h. omega arith), (λ h. refl))
read_frame-closed_iff (a ∷ b ∷ []) max = ((λ h. omega arith), (λ h. refl))
read_frame-closed_iff (a ∷ b ∷ c ∷ []) max = ((λ h. omega arith), (λ h. refl))
read_frame-closed_iff (a ∷ b ∷ c ∷ d ∷ rest) max =
    ((λ h. absurd (read_body-ne-closed max _ rest h)), (λ h. absurd (omega arith)))

-- A stream that ends in the body of a frame, whose header announces a length that is not 0, within
-- the limit and below 2^32, is an io error, not the clean close of a stream that ends before a frame.
pub read_frame_truncated :
    (n max : ℕ) (rest : List ℕ)
    → n < 2 ^ 32
    → 0 < n
    → n ≤ max
    → length rest < n
    → read_frame (to_le_bytes n ++ rest) max ≡ err io
read_frame_truncated n max rest h pos fits short =
    read_frame_header n max rest h
    ∙ unfold read_body in rw (read_exact_short n rest short) (ground arith)

-- The reader accepts nothing but what the writer writes: an accepted stream begins with the
-- header of the payload's length and the payload, which is text, not empty and within the limit.
pub read_frame_sound :
    (r payload rest : List ℕ) (max : ℕ)
    → All (λ b. b < 256) r
    → read_frame r max ≡ ok (payload, rest)
    → (r ≡ to_le_bytes (length payload) ++ (payload ++ rest))
      × (0 < length payload)
      × (length payload ≤ max)
      × (is_utf8 payload ≡ true)
unfolding read_frame
read_frame_sound [] payload rest max bytes h = cc
read_frame_sound (a ∷ []) payload rest max bytes h = cc
read_frame_sound (a ∷ b ∷ []) payload rest max bytes h = cc
read_frame_sound (a ∷ b ∷ c ∷ []) payload rest max bytes h = cc
read_frame_sound (a ∷ b ∷ c ∷ d ∷ q) payload rest max (ha, (hb, (hc, (hd, hq)))) h =
    let n : ℕ = from_le_bytes (a ∷ b ∷ c ∷ d ∷ []) in
    let (taken, pos, fits, text) = read_body_sound max n q payload rest h in
    let (e, len) = read_exact_splits n q payload rest taken in
    rw (len, e) (rw (to_le_bytes-from_le_bytes a b c d ha hb hc hd) refl, pos, fits, text)
