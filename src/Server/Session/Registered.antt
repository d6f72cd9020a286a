-- ===== src/Server/Session/Registered.antt =====
-- Who is registered while a connection is served, and after it.
use session_restore.Common.{
  ℕ, zero, suc, ◌≡◌, refl, ◌∙◌, Bool, true, false, not, none, some, Option, List, arith, ◌==◌, ℕ_eq,
  ==-refl, if_both, String_eq, select, select-append, Option-cases, inl, inr, String,
}
use session_restore.Common.Int.{ℤ}
use session_restore.Exec.{Keeps}
use session_restore.Proto.{Envelope, MessageSource, as_str, is_too_new}
use session_restore.Proto.Frame.{read_frame, max_inbound_bytes}
use session_restore.Store.Crypto.{Platform}
use session_restore.Restore.Offer.{Shared, maybe_offer_restore}
use session_restore.Server.Registry.{Connection, register, unregister}
use session_restore.Server.Dispatch.{System, Reply}
use session_restore.Server.Dispatch.Keeps.{dispatch-Keeps}
use mathlib.Core.Option
use mathlib.Core.List.{append-nil}
use session_restore.Server.Session.{
  register_as, next_profile, Session, Ended, after_write, handle, receive, register_once, write_all,
  connection_loop, fresh, handle_connection,
}
use session_restore.Server.Session.Stream.{Framed-cases}

-- The others that are connected.
abbrev OthersAre : ℕ → List Connection → Shared → Type 0
OthersAre id conns s = unregister id s.connections ≡ conns

maybe_offer_restore-OthersAre :
    (id : ℕ) (conns : List Connection) (p : Platform) (now : ℤ) (browser profile : String)
    → Keeps (OthersAre id conns) (maybe_offer_restore p now browser profile)
unfolding maybe_offer_restore
maybe_offer_restore-OthersAre id conns p now browser profile s h = ground arith

unregister-register :
    (id : ℕ) (browser profile : String) (conns : List Connection)
    → unregister id (register (record { id = id; browser = browser; profile = profile }) conns)
      ≡ unregister id conns
unfolding unregister
unregister-register id browser profile conns =
    select-append (λ c. not (c.id == id)) conns _ ∙ unfold select in rw (==-refl id) (append-nil _)

after_write-both :
    (P : Session → Type 0) (w : List Reply × Bool) (s : Session) (rest : Ended)
    → P s
    → P rest.session
    → P (after_write w s rest).session
after_write-both P (written, true) s rest h k = k
after_write-both P (written, false) s rest h k = h

module _ (sys : System) (id : ℕ) (conns : List Connection) where
  -- Its own registration is none of the others'.
  register_once-OthersAre :
      (env : Envelope) (s : Session)
      → OthersAre id conns s.shared
      → OthersAre id conns (register_once id env s).shared
  unfolding register_once
  register_once-OthersAre env s h =
      if_both (λ (t : Session). OthersAre id conns t.shared) s.registered _ _ h
        (register_as-OthersAre env.src)
    where
      register_as-OthersAre :
          (src : Option MessageSource) → OthersAre id conns (register_as id src s).shared
      register_as-OthersAre none = h
      register_as-OthersAre (some src) =
          unregister-register id (as_str src.browser) (Option.get_or s.profile "default")
            s.shared.connections
          ∙ h

  handle-OthersAre :
      (now : ℤ) (env : Envelope) (s : Session)
      → OthersAre id conns s.shared
      → OthersAre id conns (handle sys id now env s).1.shared
  unfolding handle
  handle-OthersAre now env s h =
      if_both (λ (r : List Reply × Session). OthersAre id conns r.1.shared) (is_too_new env.v) _ _ h
        (dispatch-Keeps (OthersAre id conns) (λ t db k. k) (maybe_offer_restore-OthersAre id conns)
          sys now env _ _
          (register_once-OthersAre env (record s { profile = next_profile sys env s.profile }) h))

  receive-OthersAre :
      (now : ℤ) (raw : List ℕ) (s : Session)
      → OthersAre id conns s.shared
      → OthersAre id conns (receive sys id now raw s).1.shared
  unfolding receive
  receive-OthersAre now raw s h = elim (Option-cases (sys.decode raw)) [
    | inl undecodable ↦ rw (undecodable, receive) h
    | inr (env, decoded) ↦ rw (decoded, receive) (handle-OthersAre now env s h)
  ]

  connection_loop-OthersAre :
      (delivers : Reply → Bool) (clock : ℕ → ℤ) (fuel n : ℕ) (stream : List ℕ) (s : Session)
      → OthersAre id conns s.shared
      → OthersAre id conns (connection_loop sys delivers id clock fuel n stream s).session.shared
  unfolding connection_loop
  connection_loop-OthersAre delivers clock zero n stream s h = h
  connection_loop-OthersAre delivers clock (suc fuel) n stream s h =
      elim (Framed-cases (read_frame stream max_inbound_bytes)) [
        | inl (e, failed) ↦ rw (failed, connection_loop) h
        | inr ((raw, rest), got) ↦
            let next = receive sys id (clock n) raw s in
            rw (got, connection_loop)
              (after_write-both (λ t. OthersAre id conns t.shared) (write_all delivers next.0)
                next.1 _ (receive-OthersAre (clock n) raw s h)
                (connection_loop-OthersAre delivers clock fuel (suc n) rest next.1
                  (receive-OthersAre (clock n) raw s h)))
      ]

-- However a connection ends, and whatever it sent, the registry is afterwards what it was before
-- without the id of this connection: no trace of it is left, and no other connection was touched.
pub handle_connection-unregisters :
    (sys : System) (delivers : Reply → Bool) (id : ℕ) (clock : ℕ → ℤ) (fuel : ℕ) (stream : List ℕ)
    (shared : Shared)
    → (handle_connection sys delivers id clock fuel stream shared).2.connections
      ≡ unregister id shared.connections
unfolding handle_connection
handle_connection-unregisters sys delivers id clock fuel stream shared =
    connection_loop-OthersAre sys id (unregister id shared.connections) delivers clock fuel 0 stream
      (fresh shared) refl
