-- ===== src/Store/Snapshot/Prune.antt =====
-- Which snapshots pruning deletes, and what it leaves.
use session_restore.Common.{
  ℕ, zero, suc, ◌-◌, ◌≡◌, ◌≢◌, refl, ap, ◌∙◌, Bool, true, not, ◌&&◌, List, [], ◌∷◌, map, arith,
  ◌==◌, ℕ_eq, select, All, All-imp, length, take, drop, select-All, Bool-cases, inl, inr,
}
use session_restore.Common.Int.{◌≤ℤ◌, ltb_ℤ}
use session_restore.Exec.{ok, for_each}
use session_restore.Store.Db.{Db, SnapshotRow, live}
use session_restore.Store.Snapshot.Tables.{SameAt, SameAt-refl, SameAt-trans}
use session_restore.Store.Snapshot.Delete.{
  GoneAt, delete_rows-GoneAt, delete-ne, delete_rows-SameAt, snapshots-delete_rows,
}
use session_restore.Store.Snapshot.{
  insert_newest, newest_first, snapshot_ids, delete_rows, delete, doomed, prune,
}

-- Deleting several snapshots, in order.
abbrev delete_all : List ℕ → Db → Db
delete_all [] db = db
delete_all (id ∷ ids) db = delete_all ids (delete_rows id db)

for_each-delete :
    (ids : List ℕ) (db : Db)
    → All (λ id. id ≢ live) ids
    → for_each delete ids db ≡ (ok tt, delete_all ids db)
unfolding for_each
for_each-delete [] db h = refl
for_each-delete (id ∷ ids) db h =
    simp (delete-ne id db h.0) (for_each-delete ids (delete_rows id db) h.1)

delete_all-SameAt :
    (ids : List ℕ) (other : ℕ) (db : Db)
    → All (λ id. other ≢ id) ids
    → SameAt other db (delete_all ids db)
delete_all-SameAt [] other db h = SameAt-refl other db
delete_all-SameAt (id ∷ ids) other db h =
    SameAt-trans (delete_rows-SameAt id other db h.0)
      (delete_all-SameAt ids other (delete_rows id db) h.1)

snapshots-delete_all :
    (ids : List ℕ) (other : ℕ) (db : Db)
    → All (λ id. other ≢ id) ids
    → select (λ s. s.id == other) (delete_all ids db).snapshots
      ≡ select (λ s. s.id == other) db.snapshots
snapshots-delete_all [] other db h = refl
snapshots-delete_all (id ∷ ids) other db h =
    snapshots-delete_all ids other (delete_rows id db) h.1 ∙ snapshots-delete_rows id other db h.0

select_gone {ℓ} :
    {A : Type ℓ} (p q : A → Bool) (xs : List A) → select p xs ≡ [] → select p (select q xs) ≡ []
unfolding select
select_gone p q [] h = refl
select_gone p q (x ∷ xs) h = elim (Bool-cases (p x)) [
  | inl e ↦ ground (arith, e, h)
  | inr e ↦ ground (arith, e, h, select_gone p q xs)
]

-- What is gone stays gone.
delete_rows-GoneAt_kept : (id gone : ℕ) (db : Db) → GoneAt gone db → GoneAt gone (delete_rows id db)
unfolding delete_rows
delete_rows-GoneAt_kept id gone db h = record {
  browser_windows = select_gone _ _ db.browser_windows h.browser_windows;
  tabs = select_gone _ _ db.tabs h.tabs;
  tabs_private = select_gone _ _ db.tabs_private h.tabs_private;
  tab_groups = select_gone _ _ db.tab_groups h.tab_groups;
  displays = select_gone _ _ db.displays h.displays;
  apps = select_gone _ _ db.apps h.apps;
  windows = select_gone _ _ db.windows h.windows;
  snapshots = select_gone _ _ db.snapshots h.snapshots;
}

delete_all-GoneAt_kept :
    (ids : List ℕ) (gone : ℕ) (db : Db) → GoneAt gone db → GoneAt gone (delete_all ids db)
delete_all-GoneAt_kept [] gone db h = h
delete_all-GoneAt_kept (id ∷ ids) gone db h =
    delete_all-GoneAt_kept ids gone (delete_rows id db) (delete_rows-GoneAt_kept id gone db h)

delete_all-GoneAt :
    (rows : List SnapshotRow) (db : Db)
    → All (λ s. GoneAt s.id (delete_all (snapshot_ids rows) db)) rows
delete_all-GoneAt [] db = tt
delete_all-GoneAt (s ∷ rows) db = (
  delete_all-GoneAt_kept (snapshot_ids rows) s.id (delete_rows s.id db)
      (delete_rows-GoneAt s.id db),
  delete_all-GoneAt rows (delete_rows s.id db),
)

-- Sorting newest first.
abbrev pub IsNewestFirst : List SnapshotRow → Type 0
IsNewestFirst [] = Unit
IsNewestFirst (s ∷ rs) = All (λ r. r.captured_at ≤ℤ s.captured_at) rs × IsNewestFirst rs

All-insert_newest :
    (P : SnapshotRow → Type 0) (s : SnapshotRow) (rs : List SnapshotRow)
    → P s
    → All P rs
    → All P (insert_newest s rs)
unfolding insert_newest
All-insert_newest P s [] h k = (h, tt)
All-insert_newest P s (r ∷ rs) h k = elim (Bool-cases (ltb_ℤ r.captured_at s.captured_at)) [
  | inl e ↦ rw e (h, k)
  | inr e ↦ rw e (k.0, All-insert_newest P s rs h k.1)
]

insert_newest-IsNewestFirst :
    (s : SnapshotRow) (rs : List SnapshotRow)
    → IsNewestFirst rs
    → IsNewestFirst (insert_newest s rs)
unfolding insert_newest
insert_newest-IsNewestFirst s [] h = (tt, tt)
insert_newest-IsNewestFirst s (r ∷ rs) h = elim (Bool-cases (ltb_ℤ r.captured_at s.captured_at)) [
  | inl e ↦ rw e (
    (
      ground arith,
      All-imp (λ q. q.captured_at ≤ℤ r.captured_at) (λ q. q.captured_at ≤ℤ s.captured_at) rs
          (λ q le. ground arith) h.0,
    ),
    h,
  )
  | inr e ↦ rw e (
    All-insert_newest (λ q. q.captured_at ≤ℤ r.captured_at) s rs (ground arith) h.0,
    insert_newest-IsNewestFirst s rs h.1,
  )
]

newest_first-IsNewestFirst : (rs : List SnapshotRow) → IsNewestFirst (newest_first rs)
unfolding newest_first
newest_first-IsNewestFirst [] = tt
newest_first-IsNewestFirst (s ∷ rs) =
    insert_newest-IsNewestFirst s (newest_first rs) (newest_first-IsNewestFirst rs)

All-newest_first :
    (P : SnapshotRow → Type 0) (rs : List SnapshotRow) → All P rs → All P (newest_first rs)
unfolding newest_first
All-newest_first P [] h = tt
All-newest_first P (s ∷ rs) h =
    All-insert_newest P s (newest_first rs) h.0 (All-newest_first P rs h.1)

length-insert_newest :
    (s : SnapshotRow) (rs : List SnapshotRow) → length (insert_newest s rs) ≡ suc (length rs)
unfolding insert_newest
length-insert_newest s [] = refl
length-insert_newest s (r ∷ rs) = ground (arith, length-insert_newest s rs)

length-newest_first : (rs : List SnapshotRow) → length (newest_first rs) ≡ length rs
unfolding newest_first
length-newest_first [] = refl
length-newest_first (s ∷ rs) =
    length-insert_newest s (newest_first rs) ∙ ap suc (length-newest_first rs)

All-drop : (P : SnapshotRow → Type 0) (n : ℕ) (rs : List SnapshotRow) → All P rs → All P (drop n rs)
All-drop P zero rs h = h
All-drop P (suc n) [] h = tt
All-drop P (suc n) (s ∷ rs) h = All-drop P n rs h.1

length-drop : (n : ℕ) (rs : List SnapshotRow) → length (drop n rs) ≡ length rs - n
length-drop zero rs = omega arith
length-drop (suc n) [] = omega arith
length-drop (suc n) (s ∷ rs) = omega (arith, length-drop n rs)

length-map : (f : SnapshotRow → ℕ) (rs : List SnapshotRow) → length (map f rs) ≡ length rs
length-map f [] = refl
length-map f (s ∷ rs) = ap suc (length-map f rs)

-- Nothing in the second list was captured after anything in the first.
abbrev pub IsOlder : List SnapshotRow → List SnapshotRow → Type 0
IsOlder [] old = Unit
IsOlder (k ∷ kept) old = All (λ d. d.captured_at ≤ℤ k.captured_at) old × IsOlder kept old

IsOlder-take-drop :
    (n : ℕ) (rs : List SnapshotRow) → IsNewestFirst rs → IsOlder (take n rs) (drop n rs)
IsOlder-take-drop zero rs h = tt
IsOlder-take-drop (suc n) [] h = tt
IsOlder-take-drop (suc n) (s ∷ rs) h =
    (All-drop (λ d. d.captured_at ≤ℤ s.captured_at) n rs h.0, IsOlder-take-drop n rs h.1)

-- The snapshots that pruning may delete.
abbrev pub is_candidate : SnapshotRow → Bool
is_candidate s = not (s.id == live) && not s.pinned

abbrev pub candidates : Db → List SnapshotRow
candidates db = newest_first (select is_candidate db.snapshots)

ids_of_candidates :
    (rs : List SnapshotRow)
    → All (λ s. is_candidate s ≡ true) rs
    → All (λ id. id ≢ live) (snapshot_ids rs)
ids_of_candidates [] h = tt
ids_of_candidates (s ∷ rs) h = ((λ e. ground (arith, h.0)), ids_of_candidates rs h.1)

-- Pruning sorts the unpinned snapshots, newest first, and deletes those behind the first `keep`: it
-- reports how many, none of them is LIVE or pinned, and none is newer than one it keeps. Of each of
-- them neither its row nor a row of the seven tables is left, and every other snapshot keeps its row
-- and all its data.
pub prune_lem :
    (keep : ℕ) (db : Db)
    → let kept = take keep (candidates db) in
      let old = drop keep (candidates db) in
      let (result, after) = prune keep db in
      (result ≡ ok (length (select is_candidate db.snapshots) - keep))
      × All (λ s. is_candidate s ≡ true) old
      × IsOlder kept old
      × All (λ s. GoneAt s.id after) old
      × ((other : ℕ)
          → All (λ id. other ≢ id) (snapshot_ids old)
          → SameAt other db after
            × (select (λ s. s.id == other) after.snapshots
                ≡ select (λ s. s.id == other) db.snapshots))
unfolding prune doomed
prune_lem keep db =
    let old = drop keep (candidates db) in
    let eligible : All (λ s. is_candidate s ≡ true) old =
      All-drop (λ s. is_candidate s ≡ true) keep (candidates db)
        (All-newest_first (λ s. is_candidate s ≡ true) (select is_candidate db.snapshots)
          (select-All is_candidate db.snapshots)) in
    rw (for_each-delete (snapshot_ids old) db (ids_of_candidates old eligible)) (
      ap ok (
          length-map (λ s. s.id) old
          ∙ length-drop keep (candidates db)
          ∙ ap (λ n. n - keep) (length-newest_first (select is_candidate db.snapshots))),
      eligible,
      IsOlder-take-drop keep (candidates db)
          (newest_first-IsNewestFirst (select is_candidate db.snapshots)),
      delete_all-GoneAt old db,
      (λ other apart. (
        delete_all-SameAt (snapshot_ids old) other db apart,
        snapshots-delete_all (snapshot_ids old) other db apart,
      )),
    )
