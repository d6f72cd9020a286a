-- ===== src/Proto/Frame/Progress.antt =====
-- A frame that was read leaves less of the stream.
use session_restore.Common.{
  ℕ, ◌+◌, ◌<◌, ◌≡◌, ap, ◌∙◌, some, List, arith, length, length-append, Option-cases, inl, inr,
}
use session_restore.Proto.Frame.{ok, read_exact, from_le_bytes, read_body, read_frame}
use session_restore.Proto.Frame.RoundTrip.{read_exact_splits, read_body_sound}

read_exact-length :
    (n : ℕ) (r front rest : List ℕ)
    → read_exact n r ≡ some (front, rest)
    → length r ≡ n + length rest
read_exact-length n r front rest h =
    let (split, size) = read_exact_splits n r front rest h in
    ap length split ∙ length-append front rest ∙ ap (λ k. k + length rest) size

pub read_frame-shorter :
    (max : ℕ) (r payload rest : List ℕ)
    → read_frame r max ≡ ok (payload, rest)
    → length rest < length r
unfolding read_frame
read_frame-shorter max r payload rest h = elim (Option-cases (read_exact 4 r)) [
  | inl short ↦ absurd (ground (arith, short, h))
  | inr ((f, q), found) ↦
      let body : read_body max (from_le_bytes f) q ≡ ok (payload, rest) =
        ground (arith, found, h) in
      let (got, _, _, _) = read_body_sound max (from_le_bytes f) q payload rest body in
      omega (
        arith,
        read_exact-length 4 r f q found,
        read_exact-length (from_le_bytes f) q payload rest got,
      )
]
