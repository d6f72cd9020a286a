-- ===== src/Server/Session/Stream.antt =====
-- The loop of a connection against the messages that the stream is made of.
use session_restore.Common.{
  ℕ, zero, suc, ◌<◌, ◌≤◌, ◌≡◌, ◌≢◌, refl, ap, ◌∙◌, Bool, true, false, List, [], ◌∷◌, ◌++◌, arith,
  All, length, length-append, inl, inr, ◌⊎◌,
}
use mathlib.Core.List.{append_assoc}
use session_restore.Common.Int.{ℤ}
use session_restore.Proto.Utf8.{is_utf8}
use session_restore.Proto.Frame.{Framed, FrameError, to_le_bytes, read_frame, max_inbound_bytes}
use session_restore.Proto.Frame.RoundTrip.{read_frame_header, read_body-append}
use session_restore.Proto.Frame.Progress.{read_frame-shorter}
use session_restore.Server.Dispatch.{System, Reply}
use session_restore.Server.Session.{
  Session, Ended, disconnected, unfinished, ended, after_write, receive, write_all, connection_loop,
  ending_of,
}

abbrev pub frame : List ℕ → List ℕ
frame p = to_le_bytes (length p) ++ p

abbrev pub stream_of : List (List ℕ) → List ℕ
stream_of [] = []
stream_of (p ∷ ps) = frame p ++ stream_of ps

-- What the reader accepts: text that is not empty and fits its limit.
abbrev pub IsMessage : List ℕ → Type 0
IsMessage p = (0 < length p) × (length p ≤ max_inbound_bytes) × (is_utf8 p ≡ true)

-- The messages one after the other, until the stream is closed or a write fails.
unfoldable pub serve : System → (Reply → Bool) → ℕ → (ℕ → ℤ) → ℕ → List (List ℕ) → Session → Ended
unfolding receive write_all
serve sys delivers id clock n [] s = ended disconnected s
serve sys delivers id clock n (p ∷ ps) s =
    let got = receive sys id (clock n) p s in
    after_write (write_all delivers got.0) got.1 (serve sys delivers id clock (suc n) ps got.1)

read_frame-frame :
    (p rest : List ℕ)
    → IsMessage p
    → read_frame (frame p ++ rest) max_inbound_bytes ≡ Framed.ok (p, rest)
read_frame-frame p rest (nonempty, fits, text) =
    ap (λ s. read_frame s max_inbound_bytes) (append_assoc (to_le_bytes (length p)) p rest)
    ∙ read_frame_header (length p) max_inbound_bytes (p ++ rest) (omega arith)
    ∙ read_body-append max_inbound_bytes p rest nonempty fits text

frame_longer : (p rest : List ℕ) → length rest < length (frame p ++ rest)
unfolding to_le_bytes
frame_longer p rest = omega (arith, length-append p rest)

-- On a stream that is made of the frames of messages, the loop of a connection does what these
-- messages do one after the other, and ends as disconnected unless a write fails; the length of the
-- stream is fuel enough.
pub connection_loop-stream_of :
    (sys : System) (delivers : Reply → Bool) (id : ℕ) (clock : ℕ → ℤ) (fuel n : ℕ)
    (ps : List (List ℕ)) (s : Session)
    → All IsMessage ps
    → length (stream_of ps) < fuel
    → connection_loop sys delivers id clock fuel n (stream_of ps) s
      ≡ serve sys delivers id clock n ps s
unfolding connection_loop serve
connection_loop-stream_of sys delivers id clock zero n ps s h short = absurd (omega arith)
connection_loop-stream_of sys delivers id clock (suc fuel) n [] s h short =
    unfold read_frame in refl
connection_loop-stream_of sys delivers id clock (suc fuel) n (p ∷ ps) s (m, ms) short =
    let got = receive sys id (clock n) p s in
    rw (read_frame-frame p (stream_of ps) m, connection_loop)
      (ap (after_write (write_all delivers got.0) got.1) (
        connection_loop-stream_of sys delivers id clock fuel (suc n) ps got.1 ms
          (omega (arith, frame_longer p (stream_of ps)))))

pub Framed-cases {ℓ} :
    {A : Type ℓ} (r : Framed A)
    → ((e : FrameError) × (r ≡ Framed.err e)) ⊎ ((a : A) × (r ≡ Framed.ok a))
Framed-cases (Framed.err e) = inl (e, refl)
Framed-cases (Framed.ok a) = inr (a, refl)

after_write-finished :
    (w : List Reply × Bool) (s : Session) (rest : Ended)
    → rest.ending ≢ unfinished
    → (after_write w s rest).ending ≢ unfinished
after_write-finished (written, true) s rest h = h
after_write-finished (written, false) s rest h = λ e. cc

ending_of-finished : (e : FrameError) → ending_of e ≢ unfinished
ending_of-finished FrameError.closed h = cc
ending_of-finished FrameError.io h = cc
ending_of-finished FrameError.not_utf8 h = cc
ending_of-finished (FrameError.too_large a b) h = cc

-- Whatever bytes the stream has, one more round than it has bytes is enough: the loop of a
-- connection ends by itself, disconnected, at a broken frame or at a failed write.
pub connection_loop-finished :
    (sys : System) (delivers : Reply → Bool) (id : ℕ) (clock : ℕ → ℤ) (fuel n : ℕ) (stream : List ℕ)
    (s : Session)
    → length stream < fuel
    → (connection_loop sys delivers id clock fuel n stream s).ending ≢ unfinished
unfolding connection_loop
connection_loop-finished sys delivers id clock zero n stream s short = absurd (omega arith)
connection_loop-finished sys delivers id clock (suc fuel) n stream s short =
    elim (Framed-cases (read_frame stream max_inbound_bytes)) [
      | inl (e, failed) ↦ rw (failed, connection_loop) (ending_of-finished e)
      | inr ((raw, rest), got) ↦
          let next = receive sys id (clock n) raw s in
          rw (got, connection_loop)
            (after_write-finished (write_all delivers next.0) next.1 _ (
              connection_loop-finished sys delivers id clock fuel (suc n) rest next.1
                (omega (arith, read_frame-shorter max_inbound_bytes stream raw rest got))))
    ]
