-- ===== src/Server/Reap/Reported.antt =====
-- After a reconcile, a window of the reporter holds what the payload reports and nothing else.
use session_restore.Common.{
  ◌≡◌, String, Bool, true, false, none, List, [], ◌∷◌, arith, Bool-cases, inl, inr, ◌&&◌, ◌==◌,
  String_eq, ℕ_eq, contains, any, select-All, All, All-always, All-select, All-imp, eq_of_==,
}
use session_restore.Proto.{StateBody}
use session_restore.Store.Row.{get}
use session_restore.Store.Row.Laws.{get-delete_key_self, get-delete_key}
use session_restore.Store.Schema.{WindowRow_row, TabRow_row, PrivateRow_row, GroupRow_row}
use session_restore.Store.Db.{Db, live}
use session_restore.Server.State.{
  Reporter, live_windows, live_tabs, owned, in_window, stale, reap_tabs, reap_window, reap_one,
  reap_all, reap_missing, keys_of_tabs, keys_of_private,
}
use session_restore.Server.Reap.Tables.{stale-reported, All-delete_keys}

-- A tab that the payload reports, in a window that it reports.
abbrev pub is_reported : StateBody → String → String → Bool
is_reported body window key = contains window (live_windows body) && contains key (live_tabs body)

-- The window of `b` holds reported rows only, and exists only if it is reported.
pub record Reconciled (body : StateBody) (window : String) (b : Db) : Type 0 where
  pub tabs :
      All
        (λ t.
          in_window window t.snapshot_id t.browser_window_id ≡ true
          → is_reported body window t.tab_key ≡ true)
        b.tabs
  pub tabs_private :
      All
        (λ t.
          in_window window t.snapshot_id t.browser_window_id ≡ true
          → is_reported body window t.tab_key ≡ true)
        b.tabs_private
  pub tab_groups :
      All
        (λ g.
          in_window window g.snapshot_id g.browser_window_id ≡ true
          → contains window (live_windows body) ≡ true)
        b.tab_groups
  pub browser_windows :
      contains window (live_windows body) ≡ false → get live window b.browser_windows ≡ none

module _ (body : StateBody) (window : String) where
  reap_tabs-Reconciled :
      (a : Db)
      → contains window (live_windows body) ≡ true
      → Reconciled body window (reap_tabs body window a)
  unfolding reap_tabs
  reap_tabs-Reconciled a e = record {
    tabs =
        All-imp _ _ _ (λ t f h. ground (arith, e, f h))
          (stale-reported (λ r. r.browser_window_id) window (live_tabs body) a.tabs);
    tabs_private =
        All-imp _ _ _ (λ t f h. ground (arith, e, f h))
          (stale-reported (λ r. r.browser_window_id) window (live_tabs body) a.tabs_private);
    tab_groups = All-always _ (λ g _. e) a.tab_groups;
    browser_windows = λ k. ground (arith, e, k);
  }

  reap_window-Reconciled : (a : Db) → Reconciled body window (reap_window window a)
  unfolding reap_window
  reap_window-Reconciled a = record {
    tabs = All-imp _ _ _ (λ t e h. ground (arith, e, h)) (select-All _ a.tabs);
    tabs_private = All-imp _ _ _ (λ t e h. ground (arith, e, h)) (select-All _ a.tabs_private);
    tab_groups = All-imp _ _ _ (λ t e h. ground (arith, e, h)) (select-All _ a.tab_groups);
    browser_windows = λ k. get-delete_key_self live window a.browser_windows;
  }

  -- Reaping another window, or this one again, only takes rows away.
  reap_one-keeps :
      (w : String) (a : Db) → Reconciled body window a → Reconciled body window (reap_one body w a)
  unfolding reap_one reap_tabs reap_window
  reap_one-keeps w a h = elim (Bool-cases (contains w (live_windows body))) [
    | inl e ↦ simp e (record {
      tabs = All-delete_keys _ (stale (live_tabs body) (keys_of_tabs w a.tabs)) a.tabs h.tabs;
      tabs_private =
          All-delete_keys _ (stale (live_tabs body) (keys_of_private w a.tabs_private))
            a.tabs_private h.tabs_private;
      tab_groups = h.tab_groups;
      browser_windows = h.browser_windows;
    })
    | inr e ↦ simp e (record {
      tabs = All-select _ _ a.tabs h.tabs;
      tabs_private = All-select _ _ a.tabs_private h.tabs_private;
      tab_groups = All-select _ _ a.tab_groups h.tab_groups;
      browser_windows = λ k.
          ground (arith, h.browser_windows k, get-delete_key live w a.browser_windows live window);
    })
  ]

  reap_all-keeps :
      (ws : List String) (a : Db)
      → Reconciled body window a
      → Reconciled body window (reap_all body ws a)
  unfolding reap_all
  reap_all-keeps [] a h = h
  reap_all-keeps (w ∷ ws) a h = reap_all-keeps ws (reap_one body w a) (reap_one-keeps w a h)

  reap_one-Reconciled : (a : Db) → Reconciled body window (reap_one body window a)
  unfolding reap_one
  reap_one-Reconciled a = elim (Bool-cases (contains window (live_windows body))) [
    | inl e ↦ rw e (reap_tabs-Reconciled a e)
    | inr e ↦ rw e (reap_window-Reconciled a)
  ]

  reap_all-Reconciled :
      (ws : List String) (a : Db)
      → contains window ws ≡ true
      → Reconciled body window (reap_all body ws a)
  unfolding reap_all any
  reap_all-Reconciled [] a h = cc
  reap_all-Reconciled (w ∷ ws) a h = elim (Bool-cases (w == window)) [
    | inl e ↦
        rw (eq_of_== w window e)
          (reap_all-keeps ws (reap_one body window a) (reap_one-Reconciled a))
    | inr e ↦ reap_all-Reconciled ws (reap_one body w a) (ground (arith, h, e))
  ]

-- After a reconcile each window that the reporter had on record holds no tab that the payload does
-- not report, private ones included, and a window that it does not report is gone with its tabs
-- and its groups.
pub reap_missing-reported :
    (body : StateBody) (r : Reporter) (db : Db) (window : String)
    → contains window (owned r db) ≡ true
    → Reconciled body window (reap_missing body r db)
unfolding reap_missing
reap_missing-reported body r db window h = reap_all-Reconciled body window (owned r db) db h
