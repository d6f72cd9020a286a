-- ===== src/Lib.antt =====
-- Session Restore: the agent that records what is open in the browsers and on the desktop, and
-- brings it back after a restart.
--
-- The parts of the program and where they are modelled (paths from the root of the repository;
-- AGENT is agent/crates/sr-agent/src, PROTO is agent/crates/sr-proto/src):
--
--   Proto            the decoded messages of PROTO/lib.rs; Proto/Frame is the frame reader and
--                    writer of PROTO/frame.rs (`read_frame`, `write_frame`), Proto/Utf8 the text
--                    test that it uses, Proto/Frame/RoundTrip what the two make of each other
--   Store/Row        a table under the primary key (snapshot_id, key) as a list of rows, with the
--                    statements that the agent runs: lookup, upsert, deletion, copy
--   Store/Schema     the rows of AGENT/store/schema.sql; Store/Db the database and the settings of
--                    AGENT/store/db.rs
--   Store/Crypto     AGENT/store/crypto.rs; Store/Keys the data keys of AGENT/store/keys.rs
--   Store/Snapshot   AGENT/store/snapshot.rs: `create_from_live`, `delete`, `prune`, `list`
--   Ingest           AGENT/ingest.rs: `ingest_tab` and all that it calls
--   Server/State     `apply_state` and `reap_missing_for_browser` of AGENT/server.rs;
--                    Server/Registry its `Connection`, Server/Dispatch its `dispatch`,
--                    Server/Session its `connection_loop` and `handle_connection`, Server/Push
--                    its `push_settings`, `close_tabs` and `offer_to_connected`
--   Restore/Payload  `build_payload` and `build_private_payload` of AGENT/restore/mod.rs;
--                    Restore/Runs its `begin_run`, `record_items` and `apply_result`
--   Restore/Pending  `PendingRestore`, and Restore/Offer `effective_profile` and
--                    `maybe_offer_restore`, of AGENT/server.rs
--   Restore/Apps     the plan and the starts of AGENT/restore/apps.rs (`plan_from_snapshot`,
--                    `restore_apps`); Restore/Undo AGENT/restore/undo.rs
--   Watcher          Identity the restore tiers of AGENT/watcher/identity.rs, Redaction its
--                    command lines, folded paths and documents; Profiles the profile keys and
--                    directories of AGENT/watcher/profiles.rs and processes.rs
--   Restore/Launches `browsers_to_launch` of AGENT/restore/mod.rs
--   Restore/Place    the geometry of AGENT/restore/place.rs (`clamp_on_screen`, `map_to_current`);
--                    Watcher/Events the debounce of AGENT/watcher/events.rs
--   Ui               Browsers AGENT/browsers.rs, Settings AGENT/ui/settings.rs, Review
--                    AGENT/ui/review.rs; Store/Migrate `migrate` of AGENT/store/db.rs
--   Relay            the stamp and the walk up the processes of agent/crates/sr-relay/src/main.rs
--   Common, Exec     the shared names; calls that change a state and may stop with an error
--   Tests            the theorems at concrete inputs
--
-- How they interact: a relay sends frames; the server decodes a batch of deltas and applies it
-- (Server/State), every tab of it through the chokepoint (Ingest), which writes the live state
-- (snapshot id 0) of the store. A snapshot copies the live state. When a browser connects, the
-- server offers it the windows of a snapshot (Restore/Offer), opens a run whose undo point is
-- another snapshot (Restore/Runs), and records what came of it.
--
-- How the code is represented: a function with `&Db` is a function on the record `Db` that returns
-- an outcome and the next database; the agent opens no transactions, so what was written before an
-- error stays written. The clock is an argument `now`, the same for the whole of a call. A text
-- under a CHECK constraint is an enumeration. Rows come in the order of the list where a query has
-- no ORDER BY, and rows with an equal sort key keep it. Times and stored coordinates are unbounded
-- integers, but the i32 arithmetic of Restore/Place wraps around; ids are numbers. A set of texts is
-- a list.
--
-- Parameters: `Platform` of Store/Crypto is AES-256-GCM, the Windows data protection API, the random
-- numbers and serde_json, with their documented behaviour in `IsPlatform`. `Desktop` of Restore/Apps
-- is what the system has open and answers to a start, with the JSON of stored document lists and
-- Unicode lower case. `System` of Server/Dispatch is what the server is given: the platform, the
-- disk (`Disk` of Watcher/Profiles), SHA-256, the command lines of processes, and the decoding of a
-- frame; whether a write to a pipe succeeds is an argument. `Machine` of Ui/Browsers is the program
-- folders, the files and the starts of programs; `Doubles` of Restore/Place is double arithmetic. `Serde` of Relay is
-- the text of JSON values.
--
-- Bounds and fuel: no loop needs fuel but `decimal_digits`, whose 20 rounds are enough for an id
-- below 2 ^ 63, which has 19 digits, `digits_of`, the same for a length or an i64, `trim_start`, whose rounds
-- are the bytes of the text, and `connection_loop`, which is given one round more than its stream
-- has bytes. The walk up the processes is bounded by its six levels, as in the source.
--
-- Not modelled: threads, pipes, logging, the Win32 calls, the installer and the web views, which
-- are input and output; the JSON decoding, which is serde; the capture of the desktop, the
-- moving of windows, and the sentence that reports an undo.
pub mod Common
pub mod Exec
pub mod Proto
pub mod Store
pub mod Watcher
pub mod Ingest
pub mod Server
pub mod Restore
pub mod Ui
pub mod Relay
pub mod Tests
