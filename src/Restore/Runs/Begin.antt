-- ===== src/Restore/Runs/Begin.antt =====
-- What `begin_run` does, with and without a recent undo point.
use session_restore.Store.Snapshot.Create.{copied, with_snapshot}
use session_restore.Common.{
  any, Bool, false, ℕ, ◌+◌, ◌<◌, ◌≡◌, refl, ap, ◌∙◌, String, true, none, some, List, [], ◌∷◌, ◌++◌,
  arith, ℕ_eq, String_eq, select, select-All, All, All-imp, Bool-cases, inl, inr, Option-cases,
}
use session_restore.Common.Int.{ℤ, ltb_ℤ}
use session_restore.Exec.{ok}
use session_restore.Store.Db.{Db, RunRow, pre_restore}
use session_restore.Store.Snapshot.{snapshot_row, live_tab_count, live_app_count}
use session_restore.Store.Snapshot.Tables.{IsOwned}
use session_restore.Store.Snapshot.Create.{create_from_live-copied}
use session_restore.Restore.Runs.{
  latest_run, has_undo, in_episode, undo_of, recent_undo, is_mode, run_row, insert_run, begin_run,
}

latest_run_undo :
    (r : RunRow) (rs : List RunRow)
    → All (λ q. has_undo q ≡ true) (r ∷ rs)
    → undo_of (latest_run (r ∷ rs)) ≡ none
    → ⊥
unfolding latest_run
latest_run_undo r [] h e = ground (arith, h.0, e)
latest_run_undo r (q ∷ rs) (h, hs) e =
    let later = latest_run_undo q rs hs in
    elim (Option-cases (latest_run (q ∷ rs))) [
      | inl gone ↦ later (ap undo_of gone)
      | inr (w, found) ↦ elim (Bool-cases (ltb_ℤ r.started_at w.started_at)) [
        | inl newer ↦ later (ap undo_of found ∙ ground (arith, e, found, newer))
        | inr older ↦ ground (arith, h, e, found, older)
      ]
    ]

-- Nothing recent means that no run is in the episode.
pub recent_undo-none :
    (now : ℤ) (id : ℕ) (runs : List RunRow)
    → recent_undo now id runs ≡ none
    → select (in_episode now id) runs ≡ []
unfolding recent_undo
recent_undo-none now id runs e =
    none_in (select (in_episode now id) runs)
      (All-imp _ _ _ (λ r k. ground (arith, k)) (select-All (in_episode now id) runs)) e
  where
    none_in :
        (rs : List RunRow)
        → All (λ q. has_undo q ≡ true) rs
        → undo_of (latest_run rs) ≡ none
        → rs ≡ []
    none_in [] h k = refl
    none_in (r ∷ rs) h k = absurd (latest_run_undo r rs h k)

pub none-All :
    (now : ℤ) (id : ℕ) (runs : List RunRow)
    → select (in_episode now id) runs ≡ []
    → All (λ r. in_episode now id r ≡ false) runs
unfolding select
none-All now id [] e = tt
none-All now id (r ∷ rs) e = elim (Bool-cases (in_episode now id r)) [
  | inl here ↦ absurd (ground (arith, e, here))
  | inr there ↦ (there, none-All now id rs (ground (arith, e, there)))
]

pub begin_run-shared :
    (now : ℤ) (id : ℕ) (mode : String) (db : Db) (u : ℕ)
    → is_mode mode ≡ true
    → recent_undo now id db.restore_runs ≡ some u
    → begin_run now id mode db ≡ (
      ok (run_row now id mode (some u) db.restore_runs).id,
      record db {
        restore_runs = db.restore_runs ++ (run_row now id mode (some u) db.restore_runs ∷ []);
      },
    )
unfolding begin_run insert_run
begin_run-shared now id mode db u m e = simp (e, m)

pub begin_run-refused :
    (now : ℤ) (id : ℕ) (mode : String) (db : Db) (u : ℕ)
    → is_mode mode ≡ false
    → recent_undo now id db.restore_runs ≡ some u
    → (begin_run now id mode db).1 ≡ db
unfolding begin_run insert_run
begin_run-refused now id mode db u m e = simp (e, m) refl

-- The first run of a restore takes the undo point.
pub begin_run-first :
    (now : ℤ) (id : ℕ) (mode : String) (db : Db)
    → is_mode mode ≡ true
    → recent_undo now id db.restore_runs ≡ none
    → IsOwned db
    → 0 < live_tab_count db + live_app_count db
    → let point = snapshot_row now pre_restore (some "before restore") db in
      let row = run_row now id mode (some point.id) db.restore_runs in
      begin_run now id mode db ≡ (
        ok row.id,
        record (copied point.id (with_snapshot point db)) {
          restore_runs = db.restore_runs ++ (row ∷ []);
        },
      )
unfolding begin_run insert_run
begin_run-first now id mode db m e owned some_live =
    simp (e, m, create_from_live-copied now pre_restore (some "before restore") db owned some_live)
      refl

pub any-last :
    (f : RunRow → Bool) (r : RunRow) (rs : List RunRow) → f r ≡ true → any f (rs ++ (r ∷ [])) ≡ true
unfolding any
any-last f r [] h = ground (arith, h)
any-last f r (q ∷ rs) h = ground (arith, any-last f r rs h)

pub any-more :
    (f : RunRow → Bool) (r : RunRow) (rs : List RunRow)
    → any f rs ≡ true
    → any f (rs ++ (r ∷ [])) ≡ true
unfolding any
any-more f r [] h = cc
any-more f r (q ∷ rs) h = elim (Bool-cases (f q)) [
  | inl e ↦ rw e refl
  | inr e ↦ rw e (any-more f r rs (ground (arith, h, e)))
]

pub All-last :
    (P : RunRow → Type 0) (r : RunRow) (rs : List RunRow) → All P rs → P r → All P (rs ++ (r ∷ []))
All-last P r [] h p = (p, tt)
All-last P r (q ∷ rs) (h, hs) p = (h, All-last P r rs hs p)
