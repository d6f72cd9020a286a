-- ===== src/Server/Session.antt =====
-- One connection from its first frame to its end: `connection_loop` and `handle_connection` of
-- agent/crates/sr-agent/src/server.rs. A write to the pipe succeeds or not, as `delivers` says.
use Prim.Native.String.{◌++◌ as append}
use mathlib.Core.Option
use session_restore.Common.{
  ℕ, zero, suc, String, Bool, true, false, not, Option, none, some, List, [], ◌∷◌, ◌++◌, ◌==◌,
  String_eq, if◌then◌else◌,
}
use session_restore.Common.Int.{ℤ}
use session_restore.Exec.{Outcome, ok, err, Exec}
use session_restore.Proto.{MessageSource, Envelope, as_str, is_too_new, protocol_version}
use session_restore.Proto.Frame.{FrameError, closed, read_frame, max_inbound_bytes, Framed}
use session_restore.Restore.Offer.{Shared}
use session_restore.Server.Registry.{Connection, register, unregister}
use session_restore.Server.Dispatch.{System, Reply, version_too_new, dispatch, non_empty, pid_of}
use session_restore.Watcher.Profiles.{profile_from_command_line}
pub mod Stream
pub mod Attribution
pub mod Registered

-- What the thread of a connection keeps, beside what all of them share.
pub record Session : Type 0 where
  pub profile : Option String
  pub registered : Bool
  pub shared : Shared

-- `resolve_profile`
unfoldable pub resolve_profile : System → ℕ → String
resolve_profile sys pid = elim (sys.read_command_line pid) [
  | some cmd ↦ profile_from_command_line sys.sha256 cmd
  | none ↦ "default"
]

abbrev resolve_by : System → Option ℕ → Option String
resolve_by sys none = none
resolve_by sys (some pid) = some (resolve_profile sys pid)

-- format!("ext:{id}")
abbrev pub reported_by : Option String → Option String
reported_by none = none
reported_by (some id) = some (append "ext:" id)

abbrev pub first_of : Option String → Option String → Option String
first_of (some p) other = some p
first_of none other = other

-- The profile of the connection after the message: what a `hello` reports, or what was known, or
-- what the command line of the browser says.
unfoldable pub next_profile : System → Envelope → Option String → Option String
unfolding resolve_profile
next_profile sys env profile =
    let known = first_of profile (resolve_by sys (pid_of env.src)) in
    if env.kind == "hello"
    then first_of (reported_by (non_empty env.body.profile_id)) known
    else known

abbrev pub register_as : ℕ → Option MessageSource → Session → Session
register_as id none s = s
register_as id (some src) s = record s {
  registered = true;
  shared = record s.shared {
    connections =
        register
          (record {
            id = id;
            browser = as_str src.browser;
            profile = Option.get_or s.profile "default";
          })
          s.shared.connections;
  };
}

-- Registered once, before the first dispatch.
unfoldable pub register_once : ℕ → Envelope → Session → Session
register_once id env s = if s.registered then s else register_as id env.src s

-- The replies that were written, and whether all of them were.
unfoldable pub write_all : (Reply → Bool) → List Reply → List Reply × Bool
write_all delivers [] = ([], true)
write_all delivers (r ∷ rs) =
    let rest = write_all delivers rs in if delivers r then (r ∷ rest.0, rest.1) else ([], false)

-- A message that could not be handled is passed over.
abbrev pub replies_of : Outcome (List Reply) → List Reply
replies_of (ok replies) = replies
replies_of (err _) = []

abbrev pub handle_with : System → ℤ → Envelope → Session → List Reply × Session
handle_with sys now env s =
    let done = dispatch sys now env s.profile s.shared in
    (replies_of done.0, record s { shared = done.1 })

-- One decoded message: what is to be answered, and the state after it.
unfoldable pub handle : System → ℕ → ℤ → Envelope → Session → List Reply × Session
unfolding next_profile register_once
handle sys id now env s =
    if is_too_new env.v
    then (version_too_new protocol_version ∷ [], s)
    else handle_with sys now env
        (register_once id env (record s { profile = next_profile sys env s.profile }))

-- One frame; one that does not decode is ignored.
unfoldable pub receive : System → ℕ → ℤ → List ℕ → Session → List Reply × Session
unfolding handle
receive sys id now raw s = elim (sys.decode raw) [
  | none ↦ ([], s)
  | some env ↦ handle sys id now env s
]

-- How a connection ends; `unfinished` is for a loop that is out of fuel.
pub data Ending : Type 0 where
  disconnected write_failed unfinished : Ending
  broken : FrameError → Ending

abbrev pub ending_of : FrameError → Ending
ending_of closed = disconnected
ending_of e = broken e

-- What was written, the end, and the state that is left.
pub record Ended : Type 0 where
  pub written : List Reply
  pub ending : Ending
  pub session : Session

abbrev pub prepend : List Reply → Ended → Ended
prepend replies e = record e { written = replies ++ e.written }

abbrev pub ended : Ending → Session → Ended
ended ending s = record { written = []; ending = ending; session = s }

-- What is done once the replies to a message were written, or not.
abbrev pub after_write : List Reply × Bool → Session → Ended → Ended
after_write (written, true) s rest = prepend written rest
after_write (written, false) s rest = prepend written (ended write_failed s)

-- The loop over the stream; `clock n` is the time of its n-th round, and a round takes at least
-- one byte, so that the length of the stream and one more are fuel enough.
unfoldable pub connection_loop :
    System → (Reply → Bool) → ℕ → (ℕ → ℤ) → ℕ → ℕ → List ℕ → Session → Ended
unfolding receive write_all
connection_loop sys delivers id clock zero n stream s = ended unfinished s
connection_loop sys delivers id clock (suc fuel) n stream s =
    elim (read_frame stream max_inbound_bytes) [
      | Framed.err e ↦ ended (ending_of e) s
      | Framed.ok (raw, rest) ↦
          let got = receive sys id (clock n) raw s in
          after_write (write_all delivers got.0) got.1
            (connection_loop sys delivers id clock fuel (suc n) rest got.1)
    ]

abbrev pub fresh : Shared → Session
fresh shared = record { profile = none; registered = false; shared = shared }

-- The thread of a connection: the loop, and the guard that unregisters it however it ended.
abbrev pub close_session : ℕ → Session → Shared
close_session id s = record s.shared { connections = unregister id s.shared.connections }

unfoldable pub handle_connection :
    System → (Reply → Bool) → ℕ → (ℕ → ℤ) → ℕ → List ℕ → Shared → List Reply × Ending × Shared
unfolding connection_loop unregister
handle_connection sys delivers id clock fuel stream shared =
    let e = connection_loop sys delivers id clock fuel 0 stream (fresh shared) in
    (e.written, e.ending, close_session id e.session)
