-- ===== src/Tests/Storage.antt =====
-- Snapshots and data keys.
use session_restore.Common.{
  List, ℕ, ◌≡◌, refl, ◌≢◌, ◌-◌, true, none, some, [], ◌∷◌, ◌++◌, arith, length, All, select, take,
  drop, ◌==◌, ℕ_eq,
}
use session_restore.Common.Int.{pos, ◌-ℤ◌}
use session_restore.Exec.{ok}
use session_restore.Store.Db.{Db, live, manual, next_id}
use session_restore.Store.Snapshot.{
  snapshot_row, snapshot_ids, live_tab_count, live_app_count, create_from_live, prune,
}
use session_restore.Store.Snapshot.Tables.{SameAt, CopiedAt}
use session_restore.Store.Snapshot.Create.{create_from_live_lem}
use session_restore.Store.Snapshot.Prune.{is_candidate, candidates, IsOlder, prune_lem}
use session_restore.Store.Snapshot.Delete.{GoneAt}
use session_restore.Store.Crypto.{wrap_key}
use session_restore.Store.Keys.{
  purpose_private_tabs, wrap_method, newest_key, create_key, active_dek, is_active, retire_key,
}
use session_restore.Store.Keys.Handed.{HandedIn}
use session_restore.Store.Keys.Rotation.{IsYoungIn, active_dek-IsYoung}
use session_restore.Tests.Fixtures.{two_snapshots, two_snapshots-IsOwned, open_platform}

create_from_live_lem_example :
    let row = snapshot_row (pos 30) manual none two_snapshots in
    let (result, after) = create_from_live (pos 30) manual none two_snapshots in
    (result ≡ ok (some row.id))
    × (row.id ≢ live)
    × CopiedAt live row.id two_snapshots after
    × ((other : ℕ) → other ≢ row.id → SameAt other two_snapshots after)
    × (after.snapshots ≡ two_snapshots.snapshots ++ (row ∷ []))
create_from_live_lem_example =
    create_from_live_lem (pos 30) manual none two_snapshots two_snapshots-IsOwned
      (unfold live_tab_count live_app_count select in omega arith)

prune_lem_example :
    let kept = take 0 (candidates two_snapshots) in
    let old = drop 0 (candidates two_snapshots) in
    let (result, after) = prune 0 two_snapshots in
    (result ≡ ok (length (select is_candidate two_snapshots.snapshots) - 0))
    × All (λ s. is_candidate s ≡ true) old
    × IsOlder kept old
    × All (λ s. GoneAt s.id after) old
    × ((other : ℕ)
        → All (λ id. other ≢ id) (snapshot_ids old)
        → SameAt other two_snapshots after
          × (select (λ s. s.id == other) after.snapshots
              ≡ select (λ s. s.id == other) two_snapshots.snapshots))
prune_lem_example = prune_lem 0 two_snapshots

-- The key was made 3,000,000 seconds before it is asked for.
abbrev with_old_key : Db
with_old_key = record two_snapshots {
  crypto_keys =
      record {
        id = 3;
        purpose = purpose_private_tabs;
        wrapped_key = open_platform.random 7 32;
        wrap_method = wrap_method;
        created_at = pos 0;
        retired_at = none;
      }
      ∷ [];
}

abbrev rotated_key : ℕ × List ℕ
rotated_key = (4, open_platform.random 1 32)

active_dek-IsYoung_example :
    IsYoungIn
      (pos 3_000_000_000)
      rotated_key
      (active_dek open_platform (pos 3_000_000_000) with_old_key).1
    × HandedIn
        (pos 3_000_000_000)
        with_old_key.crypto_keys
        rotated_key
        (active_dek open_platform (pos 3_000_000_000) with_old_key).1
unfolding active_dek newest_key select create_key wrap_key is_active retire_key next_id ◌-ℤ◌
active_dek-IsYoung_example =
    active_dek-IsYoung open_platform (pos 3_000_000_000) with_old_key rotated_key (tt, tt) refl
