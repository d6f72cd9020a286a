-- ===== src/Tests/Payloads.antt =====
-- Payloads and keys.
use session_restore.Common.{ℕ, ◌≡◌, String, Bool, some, [], ◌∷◌, map, ℕ_eq, select, length, All}
use session_restore.Common.Int.{pos}
use session_restore.Store.Schema.{PrivateRow, TabRow}
use session_restore.Store.Db.{Db, KeyRow}
use session_restore.Restore.Payload.{tab_rows, ordinary_windows, build_payload}
use session_restore.Restore.Payload.Order.{IsWindowOf, has_rows, restorable_rows, build_payload_lem}
use session_restore.Tests.Fixtures.{two_snapshots}

build_payload_lem_example :
    (map (λ w. w.window_id) (build_payload two_snapshots 1 "chrome" "p")
      ≡ map
          (λ r. r.browser_window_id)
          (select (has_rows two_snapshots 1) (ordinary_windows two_snapshots 1 "chrome" "p")))
    × All (IsWindowOf two_snapshots 1) (build_payload two_snapshots 1 "chrome" "p")
    × ((window : String) (p : TabRow → Bool)
        → length (select p (tab_rows two_snapshots 1 window))
          ≡ length (select p (restorable_rows two_snapshots 1 window)))
build_payload_lem_example = build_payload_lem two_snapshots 1 "chrome" "p"

abbrev retired_key : ℕ → KeyRow
retired_key id = record {
  id = id;
  purpose = "private_tabs";
  wrapped_key = [];
  wrap_method = "dpapi-user-v1";
  created_at = pos 1;
  retired_at = some (pos 9);
}

abbrev sealed_tab : PrivateRow
sealed_tab = record {
  snapshot_id = 0;
  tab_key = "t9";
  browser_window_id = "w1";
  tab_index = pos 0;
  nonce = [];
  ciphertext = [];
  key_id = 1;
  expires_at = pos 99;
  updated_at = pos 1;
}

abbrev two_keys : Db
two_keys = record two_snapshots {
  crypto_keys = retired_key 1 ∷ retired_key 2 ∷ [];
  tabs_private = sealed_tab ∷ [];
}
