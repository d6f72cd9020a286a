-- ===== src/Server/Push.antt =====
-- What the agent sends on its own account: `push_settings`, `close_tabs` and `offer_to_connected`
-- of agent/crates/sr-agent/src/server.rs. `delivers id reply` is whether a write succeeds.
use session_restore.Common.{
  ℕ, zero, suc, String, Bool, true, false, Option, none, some, List, [], ◌∷◌, map, ◌==◌, ℕ_eq,
  String_eq, select, length, if◌then◌else◌,
}
use session_restore.Common.Int.{ℤ, pos}
use session_restore.Exec.{Outcome, ok, err}
use session_restore.Store.Crypto.{Platform}
use session_restore.Store.Db.{Db, setting_bool, setting_i64}
use session_restore.Restore.Offer.{RestoreSessionBody, Shared, maybe_offer_restore}
use session_restore.Server.Registry.{Connection}
use session_restore.Server.Dispatch.{Reply, restore_session, close_tabs, settings_changed}
pub mod Once

abbrev pub settings_body : Db → Reply
settings_body db =
    settings_changed (setting_bool "capture_enabled" true db.settings)
      (setting_bool "capture_private_windows" false db.settings)
      (setting_i64 "reconcile_interval_seconds" (pos 60) db.settings)

-- Tells every connected browser; what is written, to whom. A write that fails is logged.
unfoldable pub push_settings : (ℕ → Reply → Bool) → Shared → List (ℕ × Reply)
unfolding select
push_settings delivers s =
    select (λ sent. delivers sent.0 sent.1) (map (λ c. (c.id, settings_body s.db)) s.connections)

-- Asks a browser to close tabs; how many connections the request reached.
unfoldable pub ask_to_close : (ℕ → Reply → Bool) → String → ℕ → List String → Shared → ℕ
unfolding select
ask_to_close delivers browser run [] s = 0
ask_to_close delivers browser run (u ∷ us) s = length (
    select (λ c. delivers c.id (close_tabs run (u ∷ us)))
      (select (λ c. c.browser == browser) s.connections))

-- The offer that one connection is sent, if there is one.
abbrev pub offer_of : ℕ → Outcome (Option RestoreSessionBody) → List (ℕ × Reply)
offer_of id (ok (some offer)) = (id, restore_session offer) ∷ []
offer_of id _ = []

abbrev pub then_offers : List (ℕ × Reply) → List (ℕ × Reply) × Shared → List (ℕ × Reply) × Shared
then_offers [] rest = rest
then_offers (o ∷ os) rest = (o ∷ rest.0, rest.1)

-- The loop over the connections that were there when it began.
unfoldable pub offer_each : Platform → ℤ → List Connection → Shared → List (ℕ × Reply) × Shared
offer_each p now [] s = ([], s)
offer_each p now (c ∷ cs) s =
    let offered = maybe_offer_restore p now c.browser c.profile s in
    then_offers (offer_of c.id offered.0) (offer_each p now cs offered.1)

-- Sends the offer to the browsers that connected while the review was open; the offers that are
-- handed to the pipes, whether or not those take them.
unfoldable pub offer_to_connected : Platform → ℤ → Shared → List (ℕ × Reply) × Shared
unfolding offer_each
offer_to_connected p now s = offer_each p now s.connections s
