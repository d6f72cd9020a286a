-- ===== src/Restore/Payload/Order.antt =====
-- What an offer to a browser consists of: windows, and their tabs in order (`build_payload`).
use mathlib.Core.Path.{subst}
use session_restore.Common.{
  ℕ, ◌≡◌, refl, ap, sym, ◌∙◌, String, Bool, true, false, ◌&&◌, List, [], ◌∷◌, map, arith, ◌==◌,
  ℕ_eq, String_eq, select, length, All, All-imp, Bool-cases, inl, inr,
}
use session_restore.Common.Int.{ℤ, ◌≤ℤ◌, leb_ℤ}
use session_restore.Store.Schema.{WindowRow, TabRow}
use session_restore.Store.Db.{Db}
use session_restore.Restore.Payload.{
  RestoreWindow, insert_by, order_by, restore_tab, restore_window, tab_rows, push_window,
  offered_windows, ordinary_windows, build_payload,
}

module _ {ℓ} {R : Type ℓ} (index : R → ℤ) where
  abbrev IsOrdered : List R → Type 0
  IsOrdered [] = Unit
  IsOrdered (x ∷ xs) = All (λ y. index x ≤ℤ index y) xs × IsOrdered xs

  All-insert_by {κ} :
      (P : R → Type κ) (r : R) (rows : List R) → P r → All P rows → All P (insert_by index r rows)
  unfolding insert_by
  All-insert_by P r [] h hs = (h, tt)
  All-insert_by P r (x ∷ xs) h (hx, hxs) = elim (Bool-cases (leb_ℤ (index r) (index x))) [
    | inl e ↦ rw e (h, (hx, hxs))
    | inr e ↦ rw e (hx, All-insert_by P r xs h hxs)
  ]

  insert_by-IsOrdered :
      (r : R) (rows : List R) → IsOrdered rows → IsOrdered (insert_by index r rows)
  unfolding insert_by
  insert_by-IsOrdered r [] h = (tt, tt)
  insert_by-IsOrdered r (x ∷ xs) (h, hs) = elim (Bool-cases (leb_ℤ (index r) (index x))) [
    | inl e ↦
        let first : index r ≤ℤ index x = ground (arith, e) in
        rw e ((first, All-imp _ _ xs (λ y k. omega (arith, first, k)) h), (h, hs))
    | inr e ↦ rw e (
      All-insert_by (λ y. index x ≤ℤ index y) r xs (ground (arith, e)) h,
      insert_by-IsOrdered r xs hs,
    )
  ]

  order_by-IsOrdered : (rows : List R) → IsOrdered (order_by index rows)
  unfolding order_by
  order_by-IsOrdered [] = tt
  order_by-IsOrdered (r ∷ rs) = insert_by-IsOrdered r (order_by index rs) (order_by-IsOrdered rs)

  length-select-insert_by :
      (p : R → Bool) (r : R) (rows : List R)
      → length (select p (insert_by index r rows)) ≡ length (select p (r ∷ rows))
  unfolding insert_by select
  length-select-insert_by p r [] = refl
  length-select-insert_by p r (x ∷ xs) = ground (arith, length-select-insert_by p r xs)

  -- Sorting keeps every row as often as it was there.
  length-select-order_by :
      (p : R → Bool) (rows : List R)
      → length (select p (order_by index rows)) ≡ length (select p rows)
  unfolding order_by select
  length-select-order_by p [] = refl
  length-select-order_by p (r ∷ rs) =
      length-select-insert_by p r (order_by index rs) ∙ ground (arith, length-select-order_by p rs)

IsOrdered-map :
    (rows : List TabRow)
    → IsOrdered (λ r. r.tab_index) rows
    → IsOrdered (λ t. t.index) (map restore_tab rows)
IsOrdered-map [] h = tt
IsOrdered-map (r ∷ rs) (h, hs) = (later rs h, IsOrdered-map rs hs)
  where
    later :
        (qs : List TabRow)
        → All (λ q. r.tab_index ≤ℤ q.tab_index) qs
        → All (λ t. r.tab_index ≤ℤ t.index) (map restore_tab qs)
    later [] k = tt
    later (q ∷ qs) (k, ks) = (k, later qs ks)

-- The restorable rows of a window.
abbrev pub restorable_rows : Db → ℕ → String → List TabRow
restorable_rows db id window =
    select (λ r. r.snapshot_id == id && (r.browser_window_id == window && r.restorable)) db.tabs

abbrev has_any : List TabRow → Bool
has_any [] = false
has_any (_ ∷ _) = true

abbrev pub has_rows : Db → ℕ → WindowRow → Bool
has_rows db id r = has_any (tab_rows db id r.browser_window_id)

-- A window of the offer has the restorable tabs that are stored for it, in the order of their index.
abbrev pub IsWindowOf : Db → ℕ → RestoreWindow → Type 0
IsWindowOf db id w =
    (w.tabs ≡ map restore_tab (tab_rows db id w.window_id)) × IsOrdered (λ t. t.index) w.tabs

push_window-IsWindowOf :
    (db : Db) (id : ℕ) (r : WindowRow) (rest : List RestoreWindow) (ts : List TabRow)
    → ts ≡ tab_rows db id r.browser_window_id
    → All (IsWindowOf db id) rest
    → All (IsWindowOf db id) (push_window (restore_window r false (map restore_tab ts)) rest)
push_window-IsWindowOf db id r rest [] e h = h
push_window-IsWindowOf db id r rest (t ∷ ts) e h = (
  (
    ap (map restore_tab) e,
    IsOrdered-map (t ∷ ts) (
        subst (IsOrdered (λ q. q.tab_index)) (sym e)
          (order_by-IsOrdered (λ q. q.tab_index) (restorable_rows db id r.browser_window_id))),
  ),
  h,
)

offered_windows-IsWindowOf :
    (db : Db) (id : ℕ) (rs : List WindowRow) → All (IsWindowOf db id) (offered_windows db id rs)
unfolding offered_windows
offered_windows-IsWindowOf db id [] = tt
offered_windows-IsWindowOf db id (r ∷ rs) =
    push_window-IsWindowOf db id r (offered_windows db id rs) (tab_rows db id r.browser_window_id)
      refl (offered_windows-IsWindowOf db id rs)

push_window-ids :
    (db : Db) (id : ℕ) (r : WindowRow) (rest : List RestoreWindow) (rs : List WindowRow)
    (ts : List TabRow)
    → ts ≡ tab_rows db id r.browser_window_id
    → map (λ w. w.window_id) rest ≡ map (λ q. q.browser_window_id) (select (has_rows db id) rs)
    → map (λ w. w.window_id) (push_window (restore_window r false (map restore_tab ts)) rest)
      ≡ map (λ q. q.browser_window_id) (select (has_rows db id) (r ∷ rs))
unfolding select
push_window-ids db id r rest rs [] e h =
    let off : has_rows db id r ≡ false = sym (ap has_any e) in h ∙ ground (arith, off)
push_window-ids db id r rest rs (t ∷ ts) e h =
    let on : has_rows db id r ≡ true = sym (ap has_any e) in
    ap (λ ks. r.browser_window_id ∷ ks) h ∙ ground (arith, on)

offered_windows-ids :
    (db : Db) (id : ℕ) (rs : List WindowRow)
    → map (λ w. w.window_id) (offered_windows db id rs)
      ≡ map (λ q. q.browser_window_id) (select (has_rows db id) rs)
unfolding offered_windows select
offered_windows-ids db id [] = refl
offered_windows-ids db id (r ∷ rs) =
    push_window-ids db id r (offered_windows db id rs) rs (tab_rows db id r.browser_window_id) refl
      (offered_windows-ids db id rs)

-- The payload has a window for each stored ordinary window of the browser and profile that has a
-- restorable tab, and no other. Each carries the restorable tabs that are stored for it, every one
-- as often as it is stored, in the order of their index.
pub build_payload_lem :
    (db : Db) (id : ℕ) (browser profile : String)
    → (map (λ w. w.window_id) (build_payload db id browser profile)
        ≡ map
            (λ r. r.browser_window_id)
            (select (has_rows db id) (ordinary_windows db id browser profile)))
      × All (IsWindowOf db id) (build_payload db id browser profile)
      × ((window : String) (p : TabRow → Bool)
          → length (select p (tab_rows db id window))
            ≡ length (select p (restorable_rows db id window)))
unfolding build_payload
build_payload_lem db id browser profile = (
  offered_windows-ids db id (ordinary_windows db id browser profile),
  offered_windows-IsWindowOf db id (ordinary_windows db id browser profile),
  (λ window p. length-select-order_by (λ q. q.tab_index) p (restorable_rows db id window)),
)
