-- ===== src/Restore/Runs/Recorded.antt =====
-- The rows that `apply_result` leaves, one report after the other.
use session_restore.Common.{
  ℕ, suc, ◌+◌, ◌≡◌, Bool, true, not, List, [], ◌∷◌, ◌++◌, arith, ◌==◌, ℕ_eq, String_eq, any, select,
  length, Bool-cases, inl, inr, ap,
}
use session_restore.Common.Int.{ℤ}
use session_restore.Exec.{ok}
use session_restore.Store.Db.{Db, ItemRow}
use session_restore.Proto.{ResultItem}
use session_restore.Restore.Runs.{
  result_row, is_restored, put_item, same_item, apply_items, finish_run, apply_result,
}

-- A run that exists.
abbrev pub has_run : ℕ → Db → Bool
has_run run db = any (λ r. r.id == run) db.restore_runs

-- The rows that the items leave, one after the other, each in place of one with its key.
abbrev pub recorded : ℕ → List ResultItem → List ItemRow → List ItemRow
recorded run [] rows = rows
recorded run (i ∷ is) rows =
    recorded run is
      (select (λ j. not (same_item (result_row run i) j)) rows ++ (result_row run i ∷ []))

abbrev pub restored_count : List ResultItem → ℕ
restored_count is = length (select is_restored is)

put_item_known :
    (i : ItemRow) (db : Db)
    → has_run i.run_id db ≡ true
    → put_item i db ≡ (
      ok tt,
      record db { restore_items = select (λ j. not (same_item i j)) db.restore_items ++ (i ∷ []) },
    )
unfolding put_item
put_item_known i db h = ground arith

apply_items_known :
    (run good bad : ℕ) (is : List ResultItem) (db : Db)
    → has_run run db ≡ true
    → apply_items run good bad is db ≡ (
      ok (good + restored_count is, bad + length (select (λ i. not (is_restored i)) is)),
      record db { restore_items = recorded run is db.restore_items },
    )
unfolding apply_items select
apply_items_known run good bad [] db h = ap (λ n. (ok n, db)) (ground arith)
apply_items_known run good bad (i ∷ is) db h =
    let put = put_item_known (result_row run i) db h in
    let next : Db = record db {
      restore_items =
          select (λ j. not (same_item (result_row run i) j)) db.restore_items
          ++ (result_row run i ∷ []);
    } in
    elim (Bool-cases (is_restored i)) [
      | inl e ↦
          let rest = apply_items_known run (suc good) bad is next h in
          simp (e, put, rest)
            (ap (λ n. (ok n, record next { restore_items = recorded run is next.restore_items }))
              (ground arith))
      | inr e ↦
          let rest = apply_items_known run good (suc bad) is next h in
          simp (e, put, rest)
            (ap (λ n. (ok n, record next { restore_items = recorded run is next.restore_items }))
              (ground arith))
    ]

-- The rows that are put, the runs that are updated, and the two counters.
pub apply_result-recorded :
    (now : ℤ) (run : ℕ) (is : List ResultItem) (db : Db)
    → has_run run db ≡ true
    → apply_result now run is db ≡ (
      ok (restored_count is, length (select (λ i. not (is_restored i)) is)),
      record db {
        restore_items = recorded run is db.restore_items;
        restore_runs = finish_run now run db.restore_runs;
      },
    )
unfolding apply_result
apply_result-recorded now run is db h = rw (apply_items_known run 0 0 is db h) (
    ap
      (λ n. (
        ok n,
        record db {
          restore_items = recorded run is db.restore_items;
          restore_runs = finish_run now run db.restore_runs;
        },
      ))
      (ground arith))
