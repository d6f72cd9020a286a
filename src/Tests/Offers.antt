-- ===== src/Tests/Offers.antt =====
-- Restore offers.
use session_restore.Common.{
  ◌≡◌, ◌≤◌, ◌⊎◌, refl, String, true, false, none, some, List, [], ◌∷◌, All, any, select, ℕ_eq,
  String_eq,
}
use session_restore.Common.Int.{ℤ, pos}
use session_restore.Exec.{for_each}
use session_restore.Store.Row.{collides}
use session_restore.Store.Db.{next_id, setting}
use session_restore.Store.Snapshot.{create_from_live, copy_tables}
use session_restore.Restore.Payload.{build_payload}
use session_restore.Restore.Runs.{begin_run, record_items}
use session_restore.Proto.{as_str}
use session_restore.Restore.Pending.{BrowserSelection}
use session_restore.Restore.Offer.{
  Shared, RestoreSessionBody, effective_profile, maybe_offer_restore,
}
use session_restore.Restore.Offer.Once.{Event, hello, dismissed, offers_to, offers_to-once}
use session_restore.Restore.Offer.Content.{IsOfferable, maybe_offer_restore-IsAllowed}
use session_restore.Restore.Offer.Profile.{is_stored, IsOnly, effective_profile_lem}
use session_restore.Tests.Fixtures.{open_platform, two_snapshots}

abbrev first_window : BrowserSelection
first_window = record {
  windows = "w1" ∷ [];
  tabs = [];
  declined = false;
  restore_private = false;
  private_tabs = [];
}

abbrev answered_shared : Shared
answered_shared = record {
  pending = record {
    snapshot_id = some 1;
    offered = [];
    selection = some first_window;
    awaiting_review = false;
  };
  connections = [];
  db = two_snapshots;
}

abbrev waiting : Shared
waiting = record answered_shared {
  pending = record { snapshot_id = some 1; offered = []; selection = none; awaiting_review = true };
}

abbrev two_hellos : List (ℤ × Event)
two_hellos = (pos 50, hello "chrome" "p") ∷ (pos 60, dismissed) ∷ (pos 70, hello "chrome" "p") ∷ []

offers_to-once_example : offers_to "chrome\u{1}p" open_platform two_hellos answered_shared ≤ 1
offers_to-once_example = offers_to-once "chrome\u{1}p" open_platform two_hellos answered_shared

-- The only profile that Chrome has in snapshot 1 is offered to another one.
effective_profile_lem_example :
    (is_stored two_snapshots 1 "chrome" "q" ≡ true
      → effective_profile two_snapshots 1 "chrome" "q" ≡ some "q")
    × ((profile : String)
        → effective_profile two_snapshots 1 "chrome" "q" ≡ some profile
        → (is_stored two_snapshots 1 "chrome" profile ≡ true)
          × ((profile ≡ "q") ⊎ IsOnly two_snapshots 1 "chrome" profile))
effective_profile_lem_example = effective_profile_lem two_snapshots 1 "chrome" "q"

abbrev offered_body : RestoreSessionBody
offered_body = record {
  run_id = 1;
  windows =
      record {
        window_id = "w1";
        is_private = false;
        state = none;
        x = none;
        y = none;
        w = none;
        h = none;
        tabs =
            record {
              tab_key = "t1";
              url = "https://example.org/";
              title = some "Example";
              index = pos 0;
              pinned = false;
              active = true;
              group_key = none;
            }
            ∷ [];
      }
      ∷ [];
}

maybe_offer_restore-IsAllowed_example : All (IsOfferable (some first_window)) offered_body.windows
unfolding any setting select as_str build_payload begin_run create_from_live copy_tables collides
    next_id record_items for_each
maybe_offer_restore-IsAllowed_example =
    maybe_offer_restore-IsAllowed open_platform (pos 50) "chrome" "p" answered_shared offered_body
      (unfold maybe_offer_restore in refl)
