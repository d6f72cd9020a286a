-- ===== src/Restore/Runs/Reports.antt =====
-- The rows of the tabs that were reported (`apply_result`).
use session_restore.Restore.Runs.Status.{IsStatus, mapped-IsStatus}
use mathlib.Core.Path.{subst}
use mathlib.Core.Option
use mathlib.Core.List.{append-nil}
use session_restore.Common.{
  eq_of_==, select_disjoint, ℕ, ◌≡◌, refl, sym, ◌∙◌, String, Bool, true, false, not, ◌&&◌, Option,
  none, some, List, [], ◌∷◌, ◌++◌, arith, ◌==◌, ℕ_eq, String_eq, select, select-append,
  select_implied, Bool-cases, Option-cases, inl, inr, ap, ==-refl, if◌then◌else◌,
}
use session_restore.Store.Db.{ItemRow, ItemKind, app, browser_window, tab}
use session_restore.Proto.{ResultItem}
use session_restore.Restore.Runs.{same_kind, result_row, same_item}
use session_restore.Restore.Runs.Recorded.{recorded}

abbrev pub key_of : ResultItem → String
key_of i = elim i.tab_key [ none ↦ "" | some k ↦ k ]

-- The last report of a tab.
abbrev pub last_report : String → List ResultItem → Option ResultItem
last_report u [] = none
last_report u (i ∷ is) = elim (last_report u is) [
  | some j ↦ some j
  | none ↦ if key_of i == u then some i else none
]

abbrev is_tab : ItemKind → Bool
is_tab tab = true
is_tab _ = false

abbrev pub of_tab : ℕ → String → ItemRow → Bool
of_tab run u j = j.run_id == run && (is_tab j.item_kind && j.item_key == u)

-- A row of another run, or of another kind.
abbrev pub of_other : ℕ → ItemRow → Bool
of_other run j = not (j.run_id == run && is_tab j.item_kind)

-- The one row that says what was reported last of a tab; or what the table had, if nothing was.
abbrev pub Recorded : ℕ → String → Option ResultItem → List ItemRow → List ItemRow → Type 0
Recorded run u none before after = select (of_tab run u) after ≡ select (of_tab run u) before
Recorded run u (some i) before after =
    (row : ItemRow) × (select (of_tab run u) after ≡ row ∷ [])
    × (row.run_id ≡ run)
    × (row.item_kind ≡ tab)
    × (row.item_key ≡ u)
    × (row.detail ≡ i.detail)
    × IsStatus i.status row.status

tab_kind : (k : ItemKind) → same_kind k tab ≡ is_tab k
tab_kind app = refl
tab_kind browser_window = refl
tab_kind tab = refl

key_or : (i : ResultItem) → Option.get_or i.tab_key "" ≡ key_of i
key_or i = elim (Option-cases i.tab_key) [ inl e ↦ rw e refl | inr (s, e) ↦ rw e refl ]

-- What a report replaces is the row of its tab.
same_item-of_tab :
    (run : ℕ) (i : ResultItem) (j : ItemRow)
    → same_item (result_row run i) j ≡ of_tab run (key_of i) j
same_item-of_tab run i j =
    ap (λ k. j.run_id == run && (same_kind j.item_kind tab && j.item_key == k)) (key_or i)
    ∙ ap (λ b. j.run_id == run && (b && j.item_key == key_of i)) (tab_kind j.item_kind)

-- The table after one report.
abbrev put_report : ℕ → ResultItem → List ItemRow → List ItemRow
put_report run i rows =
    select (λ j. not (same_item (result_row run i) j)) rows ++ (result_row run i ∷ [])

result_row-of_tab :
    (run : ℕ) (i : ResultItem) (u : String) → of_tab run u (result_row run i) ≡ (key_of i == u)
result_row-of_tab run i u = ap (λ k. (run == run) && k == u) (key_or i) ∙ rw (==-refl run) refl

reported_here :
    (run : ℕ) (i : ResultItem) (rows : List ItemRow)
    → select (of_tab run (key_of i)) (put_report run i rows) ≡ result_row run i ∷ []
reported_here run i rows =
    let found = result_row-of_tab run i (key_of i) ∙ ==-refl (key_of i) in
    select-append (of_tab run (key_of i)) (select (λ j. not (same_item (result_row run i) j)) rows)
      (result_row run i ∷ [])
    ∙ ap (λ js. js ++ select (of_tab run (key_of i)) (result_row run i ∷ []))
        (select_disjoint (of_tab run (key_of i)) (λ j. not (same_item (result_row run i) j)) rows
          (λ j k. ground (arith, k, same_item-of_tab run i j)))
    ∙ (unfold select in rw found refl)

apart :
    (run : ℕ) (i : ResultItem) (u : String) (j : ItemRow)
    → (key_of i == u) ≡ false
    → of_tab run u j ≡ true
    → not (same_item (result_row run i) j) ≡ true
apart run i u j e h = elim (Bool-cases (j.item_key == key_of i)) [
  | inr differs ↦ ground (arith, same_item-of_tab run i j, differs)
  | inl same ↦
      let mine : (key_of i == u) ≡ (j.item_key == u) =
        ap (λ k. k == u) (sym (eq_of_== j.item_key (key_of i) same)) in
      let yours : (j.item_key == u) ≡ true = ground (arith, h) in
      absurd (ground (arith, mine ∙ yours, e))
]

reported_elsewhere :
    (run : ℕ) (i : ResultItem) (u : String) (rows : List ItemRow)
    → (key_of i == u) ≡ false
    → select (of_tab run u) (put_report run i rows) ≡ select (of_tab run u) rows
reported_elsewhere run i u rows e =
    let missed = result_row-of_tab run i u ∙ e in
    select-append (of_tab run u) (select (λ j. not (same_item (result_row run i) j)) rows)
      (result_row run i ∷ [])
    ∙ ap (λ js. js ++ select (of_tab run u) (result_row run i ∷ []))
        (select_implied (of_tab run u) (λ j. not (same_item (result_row run i) j)) rows
          (λ j h. apart run i u j e h))
    ∙ (unfold select in rw missed (append-nil (select (of_tab run u) rows)))

others_stay :
    (run : ℕ) (i : ResultItem) (rows : List ItemRow)
    → select (of_other run) (put_report run i rows) ≡ select (of_other run) rows
others_stay run i rows =
    select-append (of_other run) (select (λ j. not (same_item (result_row run i) j)) rows)
      (result_row run i ∷ [])
    ∙ ap (λ js. js ++ select (of_other run) (result_row run i ∷ []))
        (select_implied (of_other run) (λ j. not (same_item (result_row run i) j)) rows
          (λ j h. ground (arith, h, same_item-of_tab run i j)))
    ∙ (unfold select in rw (==-refl run) (append-nil (select (of_other run) rows)))

pub recorded-others :
    (run : ℕ) (is : List ResultItem) (rows : List ItemRow)
    → select (of_other run) (recorded run is rows) ≡ select (of_other run) rows
recorded-others run [] rows = refl
recorded-others run (i ∷ is) rows =
    recorded-others run is (put_report run i rows) ∙ others_stay run i rows

one_more :
    (run : ℕ) (u : String) (i : ResultItem) (rows after : List ItemRow) (last : Option ResultItem)
    → Recorded run u last (put_report run i rows) after
    → Recorded run u
        (elim last [ some j ↦ some j | none ↦ if key_of i == u then some i else none ])
        rows
        after
one_more run u i rows after (some j) h = h
one_more run u i rows after none h = elim (Bool-cases (key_of i == u)) [
  | inr e ↦ rw e (h ∙ reported_elsewhere run i u rows e)
  | inl e ↦
      let same : key_of i ≡ u = eq_of_== (key_of i) u e in
      rw e (
        result_row run i,
        h
            ∙ subst (λ k. select (of_tab run k) (put_report run i rows) ≡ result_row run i ∷ [])
                same (reported_here run i rows),
        refl,
        refl,
        key_or i ∙ same,
        refl,
        mapped-IsStatus i,
      )
]

pub recorded-Recorded :
    (run : ℕ) (u : String) (is : List ResultItem) (rows : List ItemRow)
    → Recorded run u (last_report u is) rows (recorded run is rows)
recorded-Recorded run u [] rows = refl
recorded-Recorded run u (i ∷ is) rows =
    one_more run u i rows _ (last_report u is) (recorded-Recorded run u is (put_report run i rows))
