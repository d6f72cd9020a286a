-- ===== src/Restore/Runs/Steps.antt =====
-- What a restore does after its first run (`begin_run`, `record_items`, `apply_result`).
use session_restore.Restore.Runs.Begin.{
  begin_run-shared, begin_run-refused, any-last, any-more, All-last, none-All, recent_undo-none,
}
use session_restore.Proto.{ResultItem}
use session_restore.Restore.Payload.{RestoreWindow}
use session_restore.Restore.Runs.Shared.{
  Shared, recent_undo-Shared, record_items-Shared, apply_result-Shared,
}
use session_restore.Common.{
  ℕ, ◌≡◌, refl, ap, String, none, some, List, [], ◌∷◌, ◌++◌, arith, ℕ_eq, String_eq, ==-refl, All,
  All-imp, Bool-cases, inl, inr,
}
use session_restore.Common.Int.{ℤ, ◌-ℤ◌, ◌≤ℤ◌}
use session_restore.Exec.{Keeps}
use session_restore.Store.Db.{Db, RunRow}
use session_restore.Restore.Runs.{
  undo_episode_millis, in_episode, recent_undo, is_mode, run_row, begin_run, record_items,
  apply_result,
}

-- A further run of the restore.
begin_run-Shared :
    (id p : ℕ) (t₀ t₁ t : ℤ) (base : Db) (mode : String)
    → t₀ ≤ℤ t
    → t ≤ℤ t₁
    → Keeps (Shared id p t₀ t₁ base) (begin_run t id mode)
begin_run-Shared id p t₀ t₁ t base mode h k db s =
    let recent = recent_undo-Shared id p t₀ t₁ base t db h k s in
    elim (Bool-cases (is_mode mode)) [
      | inr e ↦ rw (begin_run-refused t id mode db p e recent) s
      | inl e ↦
          let row : RunRow = run_row t id mode (some p) db.restore_runs in
          rw (begin_run-shared t id mode db p e recent) record {
            undo = All-last _ row db.restore_runs s.undo (λ _. refl);
            going = any-more (in_episode t₁ id) row db.restore_runs s.going;
            rest =
                ap
                  (λ (d : Db). record d {
                    restore_items = db.restore_items;
                    restore_runs = db.restore_runs ++ (row ∷ []);
                  })
                  s.rest;
          }
    ]

-- What a restore does after its first run: the tabs of its payload are recorded, a result comes in,
-- or a run begins for another browser.
pub data Step : Type 0 where
  recorded : ℕ → List RestoreWindow → Step
  answered : ℤ → ℕ → List ResultItem → Step
  another : ℤ → String → Step

-- The state that a step leaves, whether it returns or stops with an error.
abbrev pub run_step : ℕ → Step → Db → Db
run_step id (recorded run windows) db = (record_items run windows db).1
run_step id (answered now run is) db = (apply_result now run is db).1
run_step id (another t mode) db = (begin_run t id mode db).1

abbrev pub run_steps : ℕ → List Step → Db → Db
run_steps id [] db = db
run_steps id (s ∷ ss) db = run_steps id ss (run_step id s db)

-- Other runs begin between the first and the last.
abbrev pub IsBetween : ℤ → ℤ → Step → Type 0
IsBetween t₀ t₁ (recorded _ _) = Unit
IsBetween t₀ t₁ (answered _ _ _) = Unit
IsBetween t₀ t₁ (another t _) = (t₀ ≤ℤ t) × (t ≤ℤ t₁)

module _ (id p : ℕ) (t₀ t₁ : ℤ) (base : Db) where
  run_step-Shared :
      (s : Step) (db : Db)
      → IsBetween t₀ t₁ s
      → Shared id p t₀ t₁ base db
      → Shared id p t₀ t₁ base (run_step id s db)
  run_step-Shared (recorded run windows) db b h =
      record_items-Shared id p t₀ t₁ base run windows db h
  run_step-Shared (answered now run is) db b h = apply_result-Shared id p t₀ t₁ base now run is db h
  run_step-Shared (another t mode) db (b, c) h = begin_run-Shared id p t₀ t₁ t base mode b c db h

  pub run_steps-Shared :
      (ss : List Step) (db : Db)
      → All (IsBetween t₀ t₁) ss
      → Shared id p t₀ t₁ base db
      → Shared id p t₀ t₁ base (run_steps id ss db)
  run_steps-Shared [] db b h = h
  run_steps-Shared (s ∷ ss) db (b, bs) h =
      run_steps-Shared ss (run_step id s db) bs (run_step-Shared s db b h)

-- After the first run.
pub first-Shared :
    (t₀ t₁ : ℤ) (id : ℕ) (mode : String) (u : ℕ) (base : Db) (runs : List RunRow)
    → recent_undo t₀ id runs ≡ none
    → t₀ ≤ℤ t₁
    → t₁ -ℤ undo_episode_millis ≤ℤ t₀
    → Shared id u t₀ t₁ base
        (record base { restore_runs = runs ++ (run_row t₀ id mode (some u) runs ∷ []) })
first-Shared t₀ t₁ id mode u base runs e later soon = record {
  undo =
      All-last _ (run_row t₀ id mode (some u) runs) runs
        (All-imp _ _ runs (λ r out k. absurd (cc (out, k)))
          (none-All t₀ id runs (recent_undo-none t₀ id runs e)))
        (λ _. refl);
  going =
      any-last (in_episode t₁ id) (run_row t₀ id mode (some u) runs) runs
        (ground (arith, soon, ==-refl id));
  rest = refl;
}
