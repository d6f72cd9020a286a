-- ===== src/Ui/Review/Reveal.antt =====
-- The private tabs that are shown on request: `reveal_private` of
-- agent/crates/sr-agent/src/ui/review.rs.
use Prim.Native.String
use text.Mathlib.Text.{is_lt}
use mathlib.Core.Option
use session_restore.Common.{
  ℕ, String, Bool, false, ◌&&◌, ◌||◌, List, [], ◌∷◌, ◌++◌, map, ◌==◌, String_eq, if◌then◌else◌,
  select,
}
use session_restore.Common.Int.{ℤ, leb_ℤ}
use session_restore.Exec.{Exec, Outcome, ok, err, private_disabled, bad_json, pure, lift, ◌>>=◌}
use session_restore.Store.Schema.{PrivateRow}
use session_restore.Store.Crypto.{Platform, PrivatePayload, aad, unseal, or_error}
use session_restore.Store.Keys.{dek_by_id}
use session_restore.Store.Db.{Db, setting_bool}
use session_restore.Ui.Review.{ReviewTab, ReviewBrowserWindow, is_unexpired}

-- ORDER BY browser_window_id, tab_index
abbrev row_before : PrivateRow → PrivateRow → Bool
row_before a b =
    is_lt (String.compare a.browser_window_id b.browser_window_id)
    || (a.browser_window_id == b.browser_window_id && leb_ℤ a.tab_index b.tab_index)

unfoldable pub insert_row : PrivateRow → List PrivateRow → List PrivateRow
insert_row r [] = r ∷ []
insert_row r (x ∷ xs) =
    let rest = insert_row r xs in if row_before r x then r ∷ x ∷ xs else x ∷ rest

unfoldable pub sort_rows : List PrivateRow → List PrivateRow
sort_rows [] = []
sort_rows (r ∷ rs) = insert_row r (sort_rows rs)

abbrev shown_tab : PrivateRow → PrivatePayload → ReviewTab
shown_tab r payload = record {
  url = payload.url;
  title = Option.get_or payload.title "";
  tab_key = r.tab_key;
}

-- The decryption of one row.
unfoldable pub reveal_row : Platform → PrivateRow → Exec Db ReviewTab
reveal_row p r = do
  dek ← dek_by_id p r.key_id
  plain ← lift (unseal p dek (aad r.tab_key r.key_id) r.nonce r.ciphertext)
  payload ← lift (or_error bad_json (p.from_json plain))
  pure (shown_tab r payload)

-- `entry(window_id).or_default().push(tab)`, in a map that is ordered by its keys.
unfoldable pub push_tab :
    String → ReviewTab → List (String × List ReviewTab) → List (String × List ReviewTab)
push_tab k t [] = (k, t ∷ []) ∷ []
push_tab k t ((j, ts) ∷ rest) =
    let further = push_tab k t rest in
    if j == k
    then (j, ts ++ (t ∷ [])) ∷ rest
    else if is_lt (String.compare k j)
    then (k, t ∷ []) ∷ (j, ts) ∷ rest
    else (j, ts) ∷ further

abbrev pub keep_opened :
    String → Outcome ReviewTab → List (String × List ReviewTab) → List (String × List ReviewTab)
keep_opened k (ok t) found = push_tab k t found
keep_opened k (err e) found = found

-- A row that does not open costs its own line and nothing more.
unfoldable pub reveal_rows :
    Platform
    → List PrivateRow
    → List (String × List ReviewTab)
    → Db
    → List (String × List ReviewTab) × Db
reveal_rows p [] found db = (found, db)
reveal_rows p (r ∷ rs) found db =
    let opened = reveal_row p r db in
    reveal_rows p rs (keep_opened r.browser_window_id opened.0 found) opened.1

abbrev shown_window : String × List ReviewTab → ReviewBrowserWindow
shown_window (k, ts) = record { window_id = k; browser = "private"; profile = "private"; tabs = ts }

abbrev shown_rows : ℤ → ℕ → Db → List PrivateRow
shown_rows now id db = sort_rows (select (is_unexpired now id) db.tabs_private)

unfoldable pub reveal_private : Platform → ℤ → ℕ → Exec Db (List ReviewBrowserWindow)
reveal_private p now id db =
    if setting_bool "capture_private_windows" false db.settings
    then (let found = reveal_rows p (shown_rows now id db) [] db in
        (ok (map shown_window found.0), found.1))
    else (err private_disabled, db)
