-- ===== src/Restore/Payload.antt =====
-- The windows and tabs that are offered to a browser: `build_payload` and `build_private_payload`
-- of agent/crates/sr-agent/src/restore/mod.rs. A body is built before its run is opened, so it has
-- no run id here; `lazy` is always true.
use session_restore.Common.{
  ℕ, String, Bool, true, false, not, ◌&&◌, Option, none, List, [], ◌∷◌, map, ◌==◌, ℕ_eq, String_eq,
  select, if◌then◌else◌,
}
use session_restore.Common.Int.{ℤ, leb_ℤ, ltb_ℤ}
use session_restore.Exec.{Exec, err, gets, private_disabled, bad_json, pure, lift, ◌>>=◌}
use session_restore.Proto.{WindowState, as_str}
use session_restore.Store.Schema.{WindowRow, TabRow, PrivateRow}
use session_restore.Store.Crypto.{Platform, PrivatePayload, aad, unseal, or_error}
use session_restore.Store.Keys.{dek_by_id}
use session_restore.Store.Db.{Db, setting_bool}
pub mod Order

pub record RestoreTab : Type 0 where
  pub tab_key : String
  pub url : String
  pub title : Option String
  pub index : ℤ
  pub pinned : Bool
  pub active : Bool
  pub group_key : Option String

pub record RestoreWindow : Type 0 where
  pub window_id : String
  pub is_private : Bool
  pub state : Option WindowState
  pub x : Option ℤ
  pub y : Option ℤ
  pub w : Option ℤ
  pub h : Option ℤ
  pub tabs : List RestoreTab

-- ORDER BY tab_index, for the rows of either table.
unfoldable pub insert_by {ℓ} : {R : Type ℓ} → (R → ℤ) → R → List R → List R
insert_by index r [] = r ∷ []
insert_by index r (x ∷ xs) =
    let rest = insert_by index r xs in if leb_ℤ (index r) (index x) then r ∷ x ∷ xs else x ∷ rest

unfoldable pub order_by {ℓ} : {R : Type ℓ} → (R → ℤ) → List R → List R
unfolding insert_by
order_by index [] = []
order_by index (r ∷ rs) = insert_by index r (order_by index rs)

-- The windows of one browser and profile, private ones or ordinary ones.
abbrev pub is_window_of : ℕ → String → String → WindowRow → Bool
is_window_of id browser profile r =
    r.snapshot_id == id && (as_str r.browser == browser && r.profile_key == profile)

abbrev pub ordinary_windows : Db → ℕ → String → String → List WindowRow
ordinary_windows db id browser profile =
    select (λ r. is_window_of id browser profile r && not r.is_private) db.browser_windows

abbrev pub private_windows : Db → ℕ → String → String → List WindowRow
private_windows db id browser profile =
    select (λ r. is_window_of id browser profile r && r.is_private) db.browser_windows

abbrev pub restore_tab : TabRow → RestoreTab
restore_tab r = record {
  tab_key = r.tab_key;
  url = r.url;
  title = r.title;
  index = r.tab_index;
  pinned = r.pinned;
  active = r.active;
  group_key = r.group_key;
}

abbrev pub restore_window : WindowRow → Bool → List RestoreTab → RestoreWindow
restore_window r is_private tabs = record {
  window_id = r.browser_window_id;
  is_private = is_private;
  state = r.window_state;
  x = r.x;
  y = r.y;
  w = r.w;
  h = r.h;
  tabs = tabs;
}

-- The restorable tabs of a window, in the order of their index.
abbrev pub tab_rows : Db → ℕ → String → List TabRow
tab_rows db id window =
    order_by (λ r. r.tab_index)
      (select (λ r. r.snapshot_id == id && (r.browser_window_id == window && r.restorable)) db.tabs)

-- A window without tabs is passed over.
abbrev pub push_window : RestoreWindow → List RestoreWindow → List RestoreWindow
push_window w rest = elim w.tabs [ [] ↦ rest | _ ∷ _ ↦ w ∷ rest ]

unfoldable pub offered_windows : Db → ℕ → List WindowRow → List RestoreWindow
unfolding order_by
offered_windows db id [] = []
offered_windows db id (r ∷ rs) =
    push_window (restore_window r false (map restore_tab (tab_rows db id r.browser_window_id)))
      (offered_windows db id rs)

unfoldable pub build_payload : Db → ℕ → String → String → List RestoreWindow
unfolding offered_windows
build_payload db id browser profile = offered_windows db id (ordinary_windows db id browser profile)

-- The private rows of a window, in the order of their index.
abbrev pub private_rows : Db → ℕ → String → List PrivateRow
private_rows db id window =
    order_by (λ r. r.tab_index)
      (select (λ r. r.snapshot_id == id && r.browser_window_id == window) db.tabs_private)

abbrev pub private_tab : PrivateRow → PrivatePayload → RestoreTab
private_tab r payload = record {
  tab_key = r.tab_key;
  url = payload.url;
  title = payload.title;
  index = r.tab_index;
  pinned = payload.pinned;
  active = payload.active;
  group_key = none;
}

-- The decryption of one row.
unfoldable pub open_row : Platform → PrivateRow → Exec Db RestoreTab
open_row p r = do
  dek ← dek_by_id p r.key_id
  plain ← lift (unseal p dek (aad r.tab_key r.key_id) r.nonce r.ciphertext)
  payload ← lift (or_error bad_json (p.from_json plain))
  pure (private_tab r payload)

-- An expired row is passed over; the first row that does not open stops the call.
unfoldable pub open_rows : Platform → ℤ → List PrivateRow → Exec Db (List RestoreTab)
unfolding open_row
open_rows p now [] = pure []
open_rows p now (r ∷ rs) =
    let rest = open_rows p now rs in
    if ltb_ℤ r.expires_at now then rest else (do t ← open_row p r; ts ← rest; pure (t ∷ ts))

unfoldable pub opened_windows : Platform → ℤ → ℕ → List WindowRow → Exec Db (List RestoreWindow)
unfolding open_rows order_by
opened_windows p now id [] = pure []
opened_windows p now id (r ∷ rs) = do
  rows ← gets (λ db. private_rows db id r.browser_window_id)
  tabs ← open_rows p now rows
  rest ← opened_windows p now id rs
  pure (push_window (restore_window r true tabs) rest)

unfoldable pub build_private_payload :
    Platform → ℤ → ℕ → String → String → Exec Db (List RestoreWindow)
unfolding opened_windows
build_private_payload p now id browser profile db =
    if setting_bool "capture_private_windows" false db.settings
    then opened_windows p now id (private_windows db id browser profile) db
    else (err private_disabled, db)
