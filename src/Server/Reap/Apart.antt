-- ===== src/Server/Reap/Apart.antt =====
-- A reconcile keeps to the windows of its reporter.
use session_restore.Common.{
  ◌≡◌, refl, String, false, List, [], ◌∷◌, arith, Bool-cases, inl, inr, ◌==◌, String_eq, ℕ_eq,
  contains, any, select, ◌∙◌,
}
use session_restore.Proto.{StateBody}
use session_restore.Store.Row.{get, IsKeyed}
use session_restore.Store.Row.Keyed.{IsKeyed-select}
use session_restore.Store.Row.Laws.{get-delete_key}
use session_restore.Store.Schema.{WindowRow_row, TabRow_row, PrivateRow_row, GroupRow_row}
use session_restore.Store.Db.{Db, live}
use session_restore.Server.State.{
  Reporter, live_windows, live_tabs, owned, in_window, stale, reap_tabs, reap_window, reap_one,
  reap_all, reap_missing, keys_of_tabs, keys_of_private,
}
use session_restore.Server.Reap.Tables.{stale-apart, window-apart, IsKeyed-delete_keys}

-- The window of `b` is the window of `a`.
pub record SameWindow (window : String) (a b : Db) : Type 0 where
  pub tabs :
      select (λ t. in_window window t.snapshot_id t.browser_window_id) b.tabs
      ≡ select (λ t. in_window window t.snapshot_id t.browser_window_id) a.tabs
  pub tabs_private :
      select (λ t. in_window window t.snapshot_id t.browser_window_id) b.tabs_private
      ≡ select (λ t. in_window window t.snapshot_id t.browser_window_id) a.tabs_private
  pub tab_groups :
      select (λ g. in_window window g.snapshot_id g.browser_window_id) b.tab_groups
      ≡ select (λ g. in_window window g.snapshot_id g.browser_window_id) a.tab_groups
  pub browser_windows : get live window b.browser_windows ≡ get live window a.browser_windows

-- The primary keys of the two tab tables.
abbrev pub TabsKeyed : Db → Type 0
TabsKeyed a = IsKeyed a.tabs × IsKeyed a.tabs_private

module _ (body : StateBody) where
  reap_one-TabsKeyed : (w : String) (a : Db) → TabsKeyed a → TabsKeyed (reap_one body w a)
  unfolding reap_one reap_tabs reap_window
  reap_one-TabsKeyed w a h = elim (Bool-cases (contains w (live_windows body))) [
    | inl e ↦ simp e (
      IsKeyed-delete_keys (stale (live_tabs body) (keys_of_tabs w a.tabs)) a.tabs h.0,
      IsKeyed-delete_keys (stale (live_tabs body) (keys_of_private w a.tabs_private)) a.tabs_private
          h.1,
    )
    | inr e ↦ simp e (IsKeyed-select _ a.tabs h.0, IsKeyed-select _ a.tabs_private h.1)
  ]

  module _ (window : String) where
    reap_one-SameWindow :
        (w : String) (a : Db)
        → (w == window) ≡ false
        → TabsKeyed a
        → SameWindow window a (reap_one body w a)
    unfolding reap_one reap_tabs reap_window
    reap_one-SameWindow w a ne h = elim (Bool-cases (contains w (live_windows body))) [
      | inl e ↦ simp e (record {
        tabs = stale-apart (λ r. r.browser_window_id) w window (live_tabs body) a.tabs ne h.0;
        tabs_private =
            stale-apart (λ r. r.browser_window_id) w window (live_tabs body) a.tabs_private ne h.1;
        tab_groups = refl;
        browser_windows = refl;
      })
      | inr e ↦ simp e (record {
        tabs = window-apart (λ r. r.browser_window_id) w window a.tabs ne;
        tabs_private = window-apart (λ r. r.browser_window_id) w window a.tabs_private ne;
        tab_groups = window-apart (λ r. r.browser_window_id) w window a.tab_groups ne;
        browser_windows = get-delete_key live w a.browser_windows live window ∙ ground (arith, ne);
      })
    ]

    reap_all-SameWindow :
        (ws : List String) (a : Db)
        → contains window ws ≡ false
        → TabsKeyed a
        → SameWindow window a (reap_all body ws a)
    unfolding reap_all any
    reap_all-SameWindow [] a out h = record {
      tabs = refl;
      tabs_private = refl;
      tab_groups = refl;
      browser_windows = refl;
    }
    reap_all-SameWindow (w ∷ ws) a out h =
        let one = reap_one-SameWindow w a (ground (arith, out)) h in
        let rest =
          reap_all-SameWindow ws (reap_one body w a) (ground (arith, out))
            (reap_one-TabsKeyed w a h) in
        record {
          tabs = rest.tabs ∙ one.tabs;
          tabs_private = rest.tabs_private ∙ one.tabs_private;
          tab_groups = rest.tab_groups ∙ one.tab_groups;
          browser_windows = rest.browser_windows ∙ one.browser_windows;
        }

-- A reconcile leaves every window that its reporter did not have on record, the windows of other
-- browsers and profiles among them: the same tabs, private tabs and groups in the same order, and
-- the same row, if the tab tables keep their primary keys.
pub reap_missing-apart :
    (body : StateBody) (r : Reporter) (db : Db) (window : String)
    → TabsKeyed db
    → contains window (owned r db) ≡ false
    → SameWindow window db (reap_missing body r db)
unfolding reap_missing
reap_missing-apart body r db window h out = reap_all-SameWindow body window (owned r db) db out h
