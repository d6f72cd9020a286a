-- ===== src/Tests/Tabs.antt =====
-- Tabs on their way into the database, and the reconcile.
use session_restore.Common.{refl, true, arith, select, any, ℕ_eq, String_eq}
use session_restore.Common.Int.{pos}
use session_restore.Proto.{upsert}
use session_restore.Store.Schema.{TabRow_row, PrivateRow_row}
use session_restore.Store.Db.{live}
use session_restore.Store.Snapshot.Tables.{SameAt}
use session_restore.Store.Keys.{active_dek, newest_key, create_key}
use session_restore.Store.Crypto.{wrap_key, seal}
use session_restore.Ingest.{private_payload, store_private_encrypted, IngestCtx, ingest_tab}
use session_restore.Ingest.Routing.{PrivateFrame, ingest_tab_private}
use session_restore.Ingest.RoundTrip.{IsRestorable, ingest_tab-IsRestorable}
use session_restore.Server.State.{apply_state, reap_missing}
use session_restore.Server.Others.{apply_state-others}
use session_restore.Server.Reap.Reported.{Reconciled, reap_missing-reported}
use session_restore.Server.Reap.Apart.{SameWindow, reap_missing-apart}
use session_restore.Tests.Fixtures.{
  open_platform, open_platform-IsPlatform, two_snapshots, tab_delta, one_new_tab, chrome_reports,
}

abbrev ctx : IngestCtx
ctx = record {
  platform = open_platform;
  capture_private = true;
  private_ttl_hours = pos 24;
  snapshot_id = live;
  now = pos 50;
}

ingest_tab_private_example :
    PrivateFrame two_snapshots (ingest_tab ctx (tab_delta upsert "t4" true) two_snapshots).1
ingest_tab_private_example =
    ingest_tab_private ctx (tab_delta upsert "t4" true) two_snapshots refl refl

apply_state-others_example :
    SameAt 1 two_snapshots
      (apply_state open_platform (pos 50) one_new_tab true chrome_reports two_snapshots).1
apply_state-others_example =
    apply_state-others open_platform (pos 50) one_new_tab true chrome_reports two_snapshots 1
      (λ e. omega arith)

reap_missing-reported_example :
    Reconciled one_new_tab "w1" (reap_missing one_new_tab chrome_reports two_snapshots)
reap_missing-reported_example =
    reap_missing-reported one_new_tab chrome_reports two_snapshots "w1" (unfold any select in refl)

reap_missing-apart_example :
    SameWindow "w2" two_snapshots (reap_missing one_new_tab chrome_reports two_snapshots)
reap_missing-apart_example =
    reap_missing-apart one_new_tab chrome_reports two_snapshots "w2"
      (((refl, (refl, tt)), ((refl, tt), (tt, tt))), tt) (unfold any select in refl)

ingest_tab-IsRestorable_example :
    IsRestorable ctx
      (tab_delta upsert "t4" true)
      (ingest_tab ctx (tab_delta upsert "t4" true) two_snapshots).1
unfolding ingest_tab store_private_encrypted active_dek newest_key select create_key wrap_key seal
ingest_tab-IsRestorable_example =
    ingest_tab-IsRestorable ctx (tab_delta upsert "t4" true) two_snapshots open_platform-IsPlatform
      (unfold private_payload in refl) tt refl refl refl refl
