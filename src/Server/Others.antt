-- ===== src/Server/Others.antt =====
-- A batch of deltas writes the live snapshot alone (`apply_state`).
use session_restore.Common.{
  ℕ, ◌≡◌, ◌≢◌, refl, String, Bool, true, false, not, Option, none, some, List, [], ◌∷◌, arith,
  Bool-cases, inl, inr, ℕ_eq, String_eq, nat_eq_iff, contains, select, select_implied, ◌∙◌,
}
use session_restore.Common.Int.{ℤ}
use session_restore.Exec.{lift, ◌>>◌, Exec, Keeps, bind-Keeps, for_each, for_each-Keeps}
use session_restore.Proto.{
  BrowserKind, Op, upsert, remove, BrowserWindowDelta, TabDelta, TabGroupDelta, StateBody,
}
use session_restore.Store.Row.{Row, rows_at, in_snapshot, delete_key}
use session_restore.Store.Row.Laws.{
  rows_at-upsert_other, rows_at-upsert_overwrite, rows_at-delete_key,
}
use session_restore.Store.Schema.{WindowRow_row, TabRow_row, PrivateRow_row, GroupRow_row}
use session_restore.Store.Crypto.{Platform, aad, seal, nonce_len}
use session_restore.Store.Keys.{draw, active_dek}
use session_restore.Store.Keys.Frame.{KeyFrame, draw-KeyFrame, active_dek-KeyFrame}
use session_restore.Store.Db.{Db, live}
use session_restore.Store.Snapshot.Tables.{SameAt, SameAt-refl, SameAt-trans, SameAt-browser}
use session_restore.Ingest.{
  NormalTab, private_row, store_if_normal, route, private_payload, IngestCtx, live_ctx, ingest_tab,
  ingest_upsert, store_normal, tab_row, from_delta, remove_tab, store_private_encrypted,
  seal_and_store,
}
use session_restore.Server.State.{
  route_window, route_group, stale, live_tabs, keys_of_tabs, keys_of_private, reap_if, live_windows,
  Reporter, window_row, merge_window, upsert_window, apply_window, group_row, apply_group,
  in_window, delete_keys, reap_tabs, reap_window, reap_one, reap_all, reap_missing, owned,
  apply_state,
}

module _ {ℓ} {R : Type ℓ} ⦃t : Row R⦄ (other : ℕ) (ne : other ≢ live) where
  rows_at-delete_keys :
      (ks : List String) (rows : List R) → rows_at other (delete_keys ks rows) ≡ rows_at other rows
  rows_at-delete_keys [] rows = refl
  rows_at-delete_keys (k ∷ ks) rows =
      rows_at-delete_keys ks (delete_key live k rows) ∙ rows_at-delete_key live k rows other ne

  rows_at-window :
      (window : String) (of : R → String) (rows : List R)
      → rows_at other (select (λ r. not (in_window window (t.snapshot_id r) (of r))) rows)
        ≡ rows_at other rows
  rows_at-window window of rows =
      select_implied (in_snapshot other) _ rows (λ r h.
        ground (arith, nat_eq_iff (t.snapshot_id r) other, nat_eq_iff (t.snapshot_id r) live))

module _ (other : ℕ) (ne : other ≢ live) where
  upsert_window-SameAt :
      (now : ℤ) (r : Reporter) (w : BrowserWindowDelta) (a : Db)
      → SameAt other a (upsert_window now r w a).1
  unfolding upsert_window
  upsert_window-SameAt now r w a = stored r.browser
    where
      stored :
          (b : Option BrowserKind)
          → SameAt other a (upsert_window now (record r { browser = b }) w a).1
      stored none = SameAt-refl other a
      stored (some b) =
          SameAt-browser other a _ a.tabs a.tabs_private a.tab_groups
            (rows_at-upsert_other merge_window (window_row now b r.profile w) a.browser_windows
              other ne (λ old. refl))
            refl refl refl

  route_window-SameAt :
      (op : Op) (now : ℤ) (r : Reporter) (w : BrowserWindowDelta) (a : Db)
      → SameAt other a (route_window op now r w a).1
  route_window-SameAt upsert now r w a = upsert_window-SameAt now r w a
  route_window-SameAt remove now r w a =
      SameAt-browser other a _ a.tabs a.tabs_private a.tab_groups
        (rows_at-delete_key live w.window_id a.browser_windows other ne) refl refl refl

  route_group-SameAt :
      (op : Op) (g : TabGroupDelta) (a : Db) → SameAt other a (route_group op g a).1
  route_group-SameAt upsert g a =
      SameAt-browser other a a.browser_windows a.tabs a.tabs_private _ refl refl refl
        (rows_at-upsert_overwrite (group_row g) a.tab_groups other ne)
  route_group-SameAt remove g a =
      SameAt-browser other a a.browser_windows a.tabs a.tabs_private _ refl refl refl
        (rows_at-delete_key live g.group_key a.tab_groups other ne)

  reap_tabs-SameAt :
      (body : StateBody) (window : String) (a : Db) → SameAt other a (reap_tabs body window a)
  unfolding reap_tabs
  reap_tabs-SameAt body window a =
      SameAt-browser other a a.browser_windows _ _ a.tab_groups refl
        (rows_at-delete_keys other ne (stale (live_tabs body) (keys_of_tabs window a.tabs)) a.tabs)
        (rows_at-delete_keys other ne
          (stale (live_tabs body) (keys_of_private window a.tabs_private)) a.tabs_private)
        refl

  reap_window-SameAt : (window : String) (a : Db) → SameAt other a (reap_window window a)
  unfolding reap_window
  reap_window-SameAt window a =
      SameAt-browser other a _ _ _ _ (rows_at-delete_key live window a.browser_windows other ne)
        (rows_at-window other ne window (λ r. r.browser_window_id) a.tabs)
        (rows_at-window other ne window (λ r. r.browser_window_id) a.tabs_private)
        (rows_at-window other ne window (λ r. r.browser_window_id) a.tab_groups)

  reap_one-SameAt :
      (body : StateBody) (window : String) (a : Db) → SameAt other a (reap_one body window a)
  unfolding reap_one
  reap_one-SameAt body window a = elim (Bool-cases (contains window (live_windows body))) [
    | inl e ↦ rw e (reap_tabs-SameAt body window a)
    | inr e ↦ rw e (reap_window-SameAt window a)
  ]

  reap_all-SameAt :
      (body : StateBody) (windows : List String) (a : Db) → SameAt other a (reap_all body windows a)
  unfolding reap_all
  reap_all-SameAt body [] a = SameAt-refl other a
  reap_all-SameAt body (w ∷ ws) a =
      SameAt-trans (reap_one-SameAt body w a) (reap_all-SameAt body ws (reap_one body w a))

  reap_if-SameAt :
      (authoritative : Bool) (body : StateBody) (r : Reporter) (a : Db)
      → SameAt other a (reap_if authoritative body r a).1
  unfolding reap_missing
  reap_if-SameAt true body r a = reap_all-SameAt body (owned r a) a
  reap_if-SameAt false body r a = SameAt-refl other a

KeyFrame-SameAt : (other : ℕ) (a b : Db) → KeyFrame a b → SameAt other a b
KeyFrame-SameAt other a b h = rw h (record {
  browser_windows = refl;
  tabs = refl;
  tabs_private = refl;
  tab_groups = refl;
  displays = refl;
  apps = refl;
  windows = refl;
})

-- Tabs go under the snapshot of the context.
module _ (ctx : IngestCtx) (other : ℕ) (ne : other ≢ ctx.snapshot_id) where
  store_if_normal-SameAt :
      (n : Option NormalTab) (a : Db) → SameAt other a (store_if_normal ctx n a).1
  unfolding store_normal
  store_if_normal-SameAt none a = SameAt-refl other a
  store_if_normal-SameAt (some n) a =
      SameAt-browser other a a.browser_windows _ a.tabs_private a.tab_groups refl
        (rows_at-upsert_overwrite (tab_row ctx n) a.tabs other ne) refl refl

  seal_and_store-SameAt :
      (tab : TabDelta) (key : ℕ × List ℕ) (a : Db)
      → Keeps (SameAt other a) (seal_and_store ctx tab key)
  unfolding seal_and_store
  seal_and_store-SameAt tab key a t h =
      bind-Keeps (SameAt other a) (draw ctx.platform nonce_len) _
        (λ s k.
          SameAt-trans k
            (KeyFrame-SameAt other s _ (draw-KeyFrame ctx.platform s nonce_len s refl)))
        (λ nonce.
          bind-Keeps (SameAt other a)
            (lift (
              seal ctx.platform key.1 nonce (aad tab.tab_key key.0)
                (ctx.platform.to_json (private_payload tab))))
            _ (λ u q. q)
            (λ c u q. SameAt-trans q (
              SameAt-browser other u u.browser_windows u.tabs _ u.tab_groups refl refl
                (rows_at-upsert_overwrite (private_row ctx tab key.0 nonce c) u.tabs_private other
                  ne)
                refl)))
        t h

  store_private-SameAt :
      (tab : TabDelta) (a : Db) → SameAt other a (store_private_encrypted ctx tab a).1
  unfolding store_private_encrypted
  store_private-SameAt tab a =
      bind-Keeps (SameAt other a) (active_dek ctx.platform ctx.now) _
        (λ s k.
          SameAt-trans k
            (KeyFrame-SameAt other s _ (active_dek-KeyFrame ctx.platform s ctx.now s refl)))
        (λ key t k. seal_and_store-SameAt tab key a t k) a (SameAt-refl other a)

  ingest_upsert-SameAt : (tab : TabDelta) (a : Db) → SameAt other a (ingest_upsert ctx tab a).1
  unfolding ingest_upsert
  ingest_upsert-SameAt tab a = elim (Bool-cases tab.is_private) [
    | inr e ↦ simp e (store_if_normal-SameAt (from_delta tab) a)
    | inl e ↦ elim (Bool-cases ctx.capture_private) [
      | inl c ↦ simp (e, c) (store_private-SameAt tab a)
      | inr c ↦ simp (e, c) (SameAt-refl other a)
    ]
  ]

  route-SameAt : (op : Op) (tab : TabDelta) (a : Db) → SameAt other a (route op ctx tab a).1
  unfolding remove_tab
  route-SameAt upsert tab a = ingest_upsert-SameAt tab a
  route-SameAt remove tab a =
      SameAt-browser other a a.browser_windows _ _ a.tab_groups refl
        (rows_at-delete_key ctx.snapshot_id tab.tab_key a.tabs other ne)
        (rows_at-delete_key ctx.snapshot_id tab.tab_key a.tabs_private other ne) refl

-- A call that changes no other snapshot, whatever it starts from.
Spares : ℕ → Exec Db (Unit {0}) → Type 0
Spares other m = (a : Db) → SameAt other a (m a).1

module _ (other : ℕ) where
  Spares-Keeps : (m : Exec Db (Unit {0})) (a : Db) → Spares other m → Keeps (SameAt other a) m
  unfolding Spares
  Spares-Keeps m a f s h = SameAt-trans h (f s)

  bind-Spares : (m n : Exec Db (Unit {0})) → Spares other m → Spares other n → Spares other (m >> n)
  unfolding Spares
  bind-Spares m n f g a =
      bind-Keeps (SameAt other a) m (λ _. n) (Spares-Keeps m a f) (λ _. Spares-Keeps n a g) a
        (SameAt-refl other a)

  for_each-Spares {ℓ} :
      {A : Type ℓ} (f : A → Exec Db (Unit {0})) (xs : List A)
      → ((x : A) → Spares other (f x))
      → Spares other (for_each f xs)
  unfolding Spares
  for_each-Spares f xs h a =
      for_each-Keeps (SameAt other a) f (λ x. Spares-Keeps (f x) a (h x)) xs a (SameAt-refl other a)

-- A batch of deltas changes the live state alone: under every other snapshot id all seven tables
-- hold the rows they held, whether the batch is applied whole or stops at an error.
pub apply_state-others :
    (platform : Platform) (now : ℤ) (body : StateBody) (authoritative : Bool) (r : Reporter)
    (db : Db) (other : ℕ)
    → other ≢ live
    → SameAt other db (apply_state platform now body authoritative r db).1
unfolding apply_state Spares
apply_state-others platform now body authoritative r db other ne =
    let ctx : IngestCtx = live_ctx platform now db in
    bind-Spares other (for_each (apply_window now r) body.windows)
      (for_each (ingest_tab ctx) body.tabs
        >> (for_each apply_group body.groups >> reap_if authoritative body r))
      (for_each-Spares other (apply_window now r) body.windows
        (λ w a. unfold apply_window in route_window-SameAt other ne w.op now r w a))
      (bind-Spares other (for_each (ingest_tab ctx) body.tabs)
        (for_each apply_group body.groups >> reap_if authoritative body r)
        (for_each-Spares other (ingest_tab ctx) body.tabs
          (λ t a. unfold ingest_tab in route-SameAt ctx other ne t.op t a))
        (bind-Spares other (for_each apply_group body.groups) (reap_if authoritative body r)
          (for_each-Spares other apply_group body.groups
            (λ g a. unfold apply_group in route_group-SameAt other ne g.op g a))
          (λ a. reap_if-SameAt other ne authoritative body r a)))
      db
