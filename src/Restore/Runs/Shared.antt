-- ===== src/Restore/Runs/Shared.antt =====
-- While one restore goes on, every run of it has the undo point of the first (`begin_run`,
-- `record_items` and `apply_result`).
use mathlib.Core.Path.{subst}
use session_restore.Common.{
  if◌then◌else◌, not, ◌||◌, ℕ, suc, ◌≡◌, refl, ap, sym, ◌∙◌, true, false, some, List, [], ◌∷◌, ◌++◌,
  arith, ℕ_eq, String_eq, ◌==◌, select, any, All, Bool-cases, inl, inr, Option-cases,
}
use session_restore.Common.Int.{ℤ, -ℤ_parts, ◌≤ℤ◌, ltb_ℤ}
use session_restore.Exec.{Keeps, bind-Keeps, for_each-Keeps}
use session_restore.Store.Db.{Db, RunRow, ItemRow}
use session_restore.Proto.{ResultItem}
use session_restore.Restore.Payload.{RestoreWindow}
use session_restore.Restore.Runs.{
  undo_episode_millis, latest_run, in_episode, undo_of, recent_undo, put_item, same_item,
  pending_item, record_items, result_row, is_restored, apply_items, finish_run, apply_result,
}

-- A run that is in the episode at one time was in it before.
pub in_episode_later :
    (t₀ t₁ : ℤ) (id : ℕ) (r : RunRow)
    → t₀ ≤ℤ t₁
    → in_episode t₁ id r ≡ true
    → in_episode t₀ id r ≡ true
in_episode_later t₀ t₁ id r h e =
    ground (arith, e, -ℤ_parts t₀ undo_episode_millis, -ℤ_parts t₁ undo_episode_millis)

latest_run-undo :
    (p : ℕ) (r : RunRow) (rs : List RunRow)
    → All (λ q. q.undo_snapshot_id ≡ some p) (r ∷ rs)
    → undo_of (latest_run (r ∷ rs)) ≡ some p
unfolding latest_run
latest_run-undo p r [] (h, hs) = h
latest_run-undo p r (q ∷ rs) (h, hs) =
    let later = latest_run-undo p q rs hs in
    elim (Option-cases (latest_run (q ∷ rs))) [
      | inl gone ↦ absurd (ground (arith, ap undo_of gone, later))
      | inr (w, found) ↦
          let same : w.undo_snapshot_id ≡ some p = ap undo_of (sym found) ∙ later in
          elim (Bool-cases (ltb_ℤ r.started_at w.started_at)) [
            | inl newer ↦ rw (found, newer) same
            | inr older ↦ rw (found, older) h
          ]
    ]

-- What one restore keeps from its first run on, at `t₀`, to its last, at `t₁`: `base` is the
-- database with the undo point.
pub record Shared (id p : ℕ) (t₀ t₁ : ℤ) (base db : Db) : Type 0 where
  pub undo : All (λ r. in_episode t₀ id r ≡ true → r.undo_snapshot_id ≡ some p) db.restore_runs
  pub going : any (in_episode t₁ id) db.restore_runs ≡ true
  pub rest : db ≡ record base { restore_items = db.restore_items; restore_runs = db.restore_runs }

selected-undo :
    (id p : ℕ) (t₀ t : ℤ) (rs : List RunRow)
    → t₀ ≤ℤ t
    → All (λ r. in_episode t₀ id r ≡ true → r.undo_snapshot_id ≡ some p) rs
    → All (λ q. q.undo_snapshot_id ≡ some p) (select (in_episode t id) rs)
unfolding select
selected-undo id p t₀ t [] h all = tt
selected-undo id p t₀ t (r ∷ rs) h (u, us) = elim (Bool-cases (in_episode t id r)) [
  | inl e ↦ rw e (u (in_episode_later t₀ t id r h e), selected-undo id p t₀ t rs h us)
  | inr e ↦ rw e (selected-undo id p t₀ t rs h us)
]

still_any :
    (t t₁ : ℤ) (id : ℕ) (r : RunRow) (rs : List RunRow)
    → t ≤ℤ t₁
    → in_episode t id r ≡ false
    → any (in_episode t₁ id) (r ∷ rs) ≡ true
    → any (in_episode t₁ id) rs ≡ true
unfolding any
still_any t t₁ id r rs h out e = elim (Bool-cases (in_episode t₁ id r)) [
  | inl in_it ↦ absurd (cc (in_episode_later t t₁ id r h in_it, out))
  | inr out_too ↦ subst (λ b. (b || any (in_episode t₁ id) rs) ≡ true) out_too e
]

undo_of-any :
    (id p : ℕ) (t t₁ : ℤ) (rs : List RunRow)
    → t ≤ℤ t₁
    → any (in_episode t₁ id) rs ≡ true
    → All (λ q. q.undo_snapshot_id ≡ some p) (select (in_episode t id) rs)
    → undo_of (latest_run (select (in_episode t id) rs)) ≡ some p
unfolding select any
undo_of-any id p t t₁ [] h e all = cc
undo_of-any id p t t₁ (r ∷ rs) h e all = elim (Bool-cases (in_episode t id r)) [
  | inl here ↦
      let rest = select (in_episode t id) rs in
      rw here (
        latest_run-undo p r rest (
          subst (λ b. All (λ q. q.undo_snapshot_id ≡ some p) (if b then r ∷ rest else rest)) here
            all))
  | inr there ↦
      let rest = select (in_episode t id) rs in
      rw there (
        undo_of-any id p t t₁ rs h (still_any t t₁ id r rs h there e) (
          subst (λ b. All (λ q. q.undo_snapshot_id ≡ some p) (if b then r ∷ rest else rest)) there
            all))
]

module _ (id p : ℕ) (t₀ t₁ : ℤ) (base : Db) where
  pub recent_undo-Shared :
      (t : ℤ) (db : Db)
      → t₀ ≤ℤ t
      → t ≤ℤ t₁
      → Shared id p t₀ t₁ base db
      → recent_undo t id db.restore_runs ≡ some p
  unfolding recent_undo
  recent_undo-Shared t db h k s =
      undo_of-any id p t t₁ db.restore_runs k s.going
        (selected-undo id p t₀ t db.restore_runs h s.undo)

  with_items :
      (db : Db) (items : List ItemRow)
      → Shared id p t₀ t₁ base db
      → Shared id p t₀ t₁ base (record db { restore_items = items })
  with_items db items s = record {
    undo = s.undo;
    going = s.going;
    rest =
        ap (λ (d : Db). record d { restore_items = items; restore_runs = db.restore_runs }) s.rest;
  }

  put_item-Shared : (i : ItemRow) → Keeps (Shared id p t₀ t₁ base) (put_item i)
  unfolding put_item
  put_item-Shared i db s = elim (Bool-cases (any (λ r. r.id == i.run_id) db.restore_runs)) [
    | inr e ↦ rw e s
    | inl e ↦
        rw e (with_items db (select (λ j. not (same_item i j)) db.restore_items ++ (i ∷ [])) s)
  ]

  pub record_items-Shared :
      (run : ℕ) (windows : List RestoreWindow)
      → Keeps (Shared id p t₀ t₁ base) (record_items run windows)
  unfolding record_items
  record_items-Shared run windows =
      for_each-Keeps (Shared id p t₀ t₁ base) _
        (λ w.
          for_each-Keeps (Shared id p t₀ t₁ base) _ (λ t. put_item-Shared (pending_item run t))
            w.tabs)
        windows

  apply_items-Shared :
      (run good bad : ℕ) (is : List ResultItem)
      → Keeps (Shared id p t₀ t₁ base) (apply_items run good bad is)
  unfolding apply_items
  apply_items-Shared run good bad [] db s = s
  apply_items-Shared run good bad (i ∷ is) db s =
      let counts : ℕ × ℕ = if is_restored i then (suc good, bad) else (good, suc bad) in
      bind-Keeps (Shared id p t₀ t₁ base) (put_item (result_row run i))
        (λ _. apply_items run counts.0 counts.1 is) (put_item-Shared (result_row run i))
        (λ _. apply_items-Shared run counts.0 counts.1 is) db s

  finish_run-undo :
      (now : ℤ) (run : ℕ) (rs : List RunRow)
      → All (λ r. in_episode t₀ id r ≡ true → r.undo_snapshot_id ≡ some p) rs
      → All (λ r. in_episode t₀ id r ≡ true → r.undo_snapshot_id ≡ some p) (finish_run now run rs)
  unfolding finish_run
  finish_run-undo now run [] h = tt
  finish_run-undo now run (r ∷ rs) (h, hs) = elim (Bool-cases (r.id == run)) [
    | inl e ↦ rw e (h, finish_run-undo now run rs hs)
    | inr e ↦ rw e (h, finish_run-undo now run rs hs)
  ]

  finish_run-going :
      (now : ℤ) (run : ℕ) (rs : List RunRow)
      → any (in_episode t₁ id) (finish_run now run rs) ≡ any (in_episode t₁ id) rs
  unfolding finish_run any
  finish_run-going now run [] = refl
  finish_run-going now run (r ∷ rs) = elim (Bool-cases (r.id == run)) [
    | inl e ↦ rw e (ap (λ b. in_episode t₁ id r || b) (finish_run-going now run rs))
    | inr e ↦ rw e (ap (λ b. in_episode t₁ id r || b) (finish_run-going now run rs))
  ]

  with_finished :
      (now : ℤ) (run : ℕ) (db : Db)
      → Shared id p t₀ t₁ base db
      → Shared id p t₀ t₁ base (record db { restore_runs = finish_run now run db.restore_runs })
  with_finished now run db s = record {
    undo = finish_run-undo now run db.restore_runs s.undo;
    going = finish_run-going now run db.restore_runs ∙ s.going;
    rest =
        ap
          (λ (d : Db). record d {
            restore_items = db.restore_items;
            restore_runs = finish_run now run db.restore_runs;
          })
          s.rest;
  }

  pub apply_result-Shared :
      (now : ℤ) (run : ℕ) (is : List ResultItem)
      → Keeps (Shared id p t₀ t₁ base) (apply_result now run is)
  unfolding apply_result
  apply_result-Shared now run is =
      bind-Keeps (Shared id p t₀ t₁ base) (apply_items run 0 0 is) _ (apply_items-Shared run 0 0 is)
        (λ counts db s. with_finished now run db s)
