-- ===== src/Tests/Connections.antt =====
-- Connections of browsers.
use session_restore.Common.{ℕ, ◌≡◌, ◌≢◌, refl, Bool, true, false, none, some, List, [], ◌∷◌, arith}
use session_restore.Common.Int.{ℤ, pos}
use session_restore.Proto.{Envelope, Body, firefox}
use session_restore.Proto.Frame.{to_le_bytes}
use session_restore.Proto.Utf8.{is_utf8}
use session_restore.Restore.Offer.{Shared}
use session_restore.Watcher.Profiles.{Disk}
use session_restore.Server.Registry.{unregister}
use session_restore.Server.Dispatch.{System, Reply, dispatch}
use session_restore.Server.Dispatch.Directories.{AreKnown, dispatch-AreKnown}
use session_restore.Server.Session.{
  unfinished, fresh, handle, connection_loop, handle_connection, next_profile,
}
use session_restore.Server.Session.Stream.{
  serve, stream_of, connection_loop-stream_of, connection_loop-finished,
}
use session_restore.Server.Session.Registered.{handle_connection-unregisters}
use session_restore.Server.Session.Attribution.{restamp, handle-restamp}
use session_restore.Server.Push.{offer_to_connected}
use session_restore.Server.Push.Once.{offer_to_connected_twice}
use session_restore.Tests.Fixtures.{open_platform, two_snapshots}

abbrev empty_disk : Disk
empty_disk = record { local_state = λ folder. none; store = λ folder dir ext. none; origins = none }

abbrev hello_body : Body
hello_body = record {
  profile_id = some "0123-4567";
  incognito_access = some true;
  run_id = none;
  closed = none;
  items = [];
  state = none;
}

abbrev hello_message : Envelope
hello_message = record {
  v = 1;
  kind = "hello";
  src = some (record {
    browser = firefox;
    profile_key = "default";
    ext_version = "1.0";
    browser_pid = some 42;
  });
  body = hello_body;
}

-- Every frame is the hello.
abbrev system : System
system = record {
  platform = open_platform;
  disk = empty_disk;
  sha256 = λ bytes. bytes;
  read_command_line = λ pid. some "firefox.exe -P work";
  decode = λ raw. some hello_message;
}

abbrev idle : Shared
idle = record {
  pending = record {
    snapshot_id = some 1;
    offered = [];
    selection = none;
    awaiting_review = false;
  };
  connections =
      record { id = 7; browser = "chrome"; profile = "ext:a" }
      ∷ record { id = 8; browser = "firefox"; profile = "ext:b" }
      ∷ [];
  db = two_snapshots;
}

abbrev every : Reply → Bool
every r = true

abbrev clock : ℕ → ℤ
clock n = pos n

abbrev two_frames : List (List ℕ)
two_frames = (b'{' ∷ b'}' ∷ []) ∷ (b'{' ∷ b'}' ∷ []) ∷ []

connection_loop-stream_of_example :
    connection_loop system every 9 clock 20 0 (stream_of two_frames) (fresh idle)
    ≡ serve system every 9 clock 0 two_frames (fresh idle)
connection_loop-stream_of_example =
    connection_loop-stream_of system every 9 clock 20 0 two_frames (fresh idle)
      (
        (omega arith, omega arith, unfold is_utf8 in refl),
        ((omega arith, omega arith, unfold is_utf8 in refl), tt),
      )
      (unfold to_le_bytes in omega arith)

connection_loop-finished_example :
    (connection_loop system every 9 clock 4 0 (1 ∷ 2 ∷ 3 ∷ []) (fresh idle)).ending ≢ unfinished
connection_loop-finished_example =
    connection_loop-finished system every 9 clock 4 0 (1 ∷ 2 ∷ 3 ∷ []) (fresh idle) (omega arith)

handle_connection-unregisters_example :
    (handle_connection system every 9 clock 20 (stream_of two_frames) idle).2.connections
    ≡ unregister 9 idle.connections
handle_connection-unregisters_example =
    handle_connection-unregisters system every 9 clock 20 (stream_of two_frames) idle

handle-restamp_example :
    handle system 9 (pos 1) (restamp "spoofed" hello_message) (fresh idle)
    ≡ handle system 9 (pos 1) hello_message (fresh idle)
handle-restamp_example =
    handle-restamp system "spoofed" (pos 1) 9 hello_message (fresh idle) "ext:0123-4567"
      (unfold next_profile in refl)

dispatch-AreKnown_example :
    AreKnown (dispatch system (pos 1) hello_message (some "ext:a") idle).1.db.browser_status
dispatch-AreKnown_example = dispatch-AreKnown system (pos 1) hello_message (some "ext:a") idle tt

offer_to_connected_twice_example :
    offer_to_connected open_platform (pos 2) (offer_to_connected open_platform (pos 1) idle).1
    ≡ ([], (offer_to_connected open_platform (pos 1) idle).1)
offer_to_connected_twice_example = offer_to_connected_twice open_platform (pos 1) (pos 2) idle
