-- ===== src/Restore/Undo/Opened.antt =====
-- Which tabs an undo offers to close, and when there is something to undo.
use mathlib.Core.Path.{subst}
use session_restore.Common.Int.{ltb_ℤ, ◌≤ℤ◌}
use session_restore.Restore.Undo.Sorted.{IsAscending, times, times-sort_urls, sort_urls-IsAscending}
use session_restore.Common.{
  ℕ, suc, length, Option-cases, ◌++◌, false, ◌≡◌, refl, ap, ◌∙◌, sym, String, Bool, true, ◌&&◌,
  Option, none, some, List, [], ◌∷◌, map, arith, ◌==◌, ℕ_eq, String_eq, select, All, All-imp,
  Bool-cases, inl, inr,
}
use mathlib.Core.Option
use session_restore.Store.Db.{
  Db, RunRow, ItemRow, ItemKind, ItemStatus, app, browser_window, tab, pending, launched, placed,
  skipped, failed,
}
use session_restore.Restore.Runs.{latest_run, same_kind}
use session_restore.Restore.Undo.{
  OpenedTab, is_opened, is_launched, opened_urls, browser_of_run, labelled, opened_tabs,
  tabs_opened_by_last_restore, readable, of_run,
}

-- A tab that the restore launched, and not one that was already open.
abbrev pub as_launched : ItemKind → ItemStatus → Bool
as_launched tab launched = true
as_launched _ _ = false

-- How many launched tabs of that URL are recorded for the run.
abbrev pub launches : ℕ → String → List ItemRow → ℕ
launches run url items =
    length (
      select (λ i. i.run_id == run && (i.item_key == url && as_launched i.item_kind i.status))
        items)

-- A run of the table than which none began later.
pub record IsLatest (row : RunRow) (runs : List RunRow) : Type 0 where
  pub earlier : List RunRow
  pub later : List RunRow
  pub stored : runs ≡ earlier ++ (row ∷ later)
  pub latest : All (λ q. q.started_at ≤ℤ row.started_at) runs

latest_run-none : (runs : List RunRow) → latest_run runs ≡ none → runs ≡ []
unfolding latest_run
latest_run-none [] e = refl
latest_run-none (r ∷ rs) e = elim (Option-cases (latest_run rs)) [
  | inl last ↦ absurd (ground (arith, e, last))
  | inr (q, found) ↦ elim (Bool-cases (ltb_ℤ r.started_at q.started_at)) [
    | inl newer ↦ absurd (ground (arith, e, found, newer))
    | inr older ↦ absurd (ground (arith, e, found, older))
  ]
]

latest_run-IsLatest : (runs : List RunRow) (r : RunRow) → latest_run runs ≡ some r → IsLatest r runs
unfolding latest_run
latest_run-IsLatest [] r e = cc
latest_run-IsLatest (p ∷ rs) r e = elim (Option-cases (latest_run rs)) [
  | inl last ↦
      let same : p ≡ r = ground (arith, e, last) in
      subst (λ q. IsLatest q (p ∷ rs)) same
        (rw (latest_run-none rs last)
          record { earlier = []; later = []; stored = refl; latest = (omega arith, tt) })
  | inr (q, found) ↦
      let rest = latest_run-IsLatest rs q found in
      elim (Bool-cases (ltb_ℤ p.started_at q.started_at)) [
        | inl newer ↦
            let same : q ≡ r = ground (arith, e, found, newer) in
            subst (λ w. IsLatest w (p ∷ rs)) same
              record {
                earlier = p ∷ rest.earlier;
                later = rest.later;
                stored = ap (λ ws. p ∷ ws) rest.stored;
                latest = (ground (arith, newer), rest.latest);
              }
        | inr older ↦
            let same : p ≡ r = ground (arith, e, found, older) in
            subst (λ w. IsLatest w (p ∷ rs)) same
              record {
                earlier = [];
                later = rs;
                stored = refl;
                latest =
                    (omega arith, All-imp _ _ rs (λ w h. ground (arith, h, older)) rest.latest);
              }
      ]
]

launched_kind :
    (k : ItemKind) (s : ItemStatus) → (same_kind k tab && is_launched s) ≡ as_launched k s
launched_kind app s = refl
launched_kind browser_window s = refl
launched_kind tab pending = refl
launched_kind tab launched = refl
launched_kind tab placed = refl
launched_kind tab skipped = refl
launched_kind tab failed = refl

opened_launches :
    (run : ℕ) (u : String) (items : List ItemRow)
    → times u (map (λ i. i.item_key) (select (is_opened run) items)) ≡ launches run u items
unfolding select
opened_launches run u [] = refl
opened_launches run u (i ∷ is) =
    let rest = opened_launches run u is in
    elim (Bool-cases (i.run_id == run)) [
      | inr other ↦ rw (other, select) rest
      | inl here ↦ elim (Bool-cases (as_launched i.item_kind i.status)) [
        | inl done ↦ elim (Bool-cases (i.item_key == u)) [
          | inl same ↦ rw (here, launched_kind i.item_kind i.status, done, same) (ap suc rest)
          | inr differs ↦ rw (here, launched_kind i.item_kind i.status, done, differs) rest
        ]
        | inr left ↦ elim (Bool-cases (i.item_key == u)) [
          | inl same ↦ rw (here, launched_kind i.item_kind i.status, left, same) rest
          | inr differs ↦ rw (here, launched_kind i.item_kind i.status, left, differs) rest
        ]
      ]
    ]

opened_urls-launches :
    (run : ℕ) (u : String) (items : List ItemRow)
    → times u (opened_urls run items) ≡ launches run u items
unfolding opened_urls
opened_urls-launches run u items = times-sort_urls u _ ∙ opened_launches run u items

abbrev urls_of : Option (List OpenedTab) → List String
urls_of none = []
urls_of (some tabs) = map (λ t. t.url) tabs

labelled-urls :
    (browser u : String) (label : Option String) (rest : Option (List OpenedTab))
    (tabs : List OpenedTab)
    → labelled browser u label rest ≡ some tabs
    → (more : List OpenedTab) × (rest ≡ some more)
      × (map (λ t. t.url) tabs ≡ u ∷ map (λ t. t.url) more)
labelled-urls browser u (some label) (some more) tabs h = (more, refl, sym (ap urls_of h))
labelled-urls browser u (some label) none tabs h = cc
labelled-urls browser u none (some more) tabs h = cc
labelled-urls browser u none none tabs h = cc

-- Every URL gets its entry, in order.
opened_tabs-urls :
    (browser : String) (us : List String) (tabs : List OpenedTab)
    → opened_tabs browser us ≡ some tabs
    → map (λ t. t.url) tabs ≡ us
unfolding opened_tabs
opened_tabs-urls browser [] tabs h = sym (ap urls_of h)
opened_tabs-urls browser (u ∷ us) tabs h =
    let (more, found, urls) =
      labelled-urls browser u (readable u) (opened_tabs browser us) tabs h in
    urls ∙ ap (λ vs. u ∷ vs) (opened_tabs-urls browser us more found)

abbrev split : Option (Option ℕ × List OpenedTab) → Option (List OpenedTab)
split none = none
split (some found) = some found.1

abbrev run_of : Option (Option ℕ × List OpenedTab) → Option ℕ
run_of none = none
run_of (some found) = found.0

of_run-tabs :
    (db : Db) (latest : Option RunRow) (run : ℕ) (tabs : List OpenedTab)
    → of_run db latest ≡ some (some run, tabs)
    → (r : RunRow) × (latest ≡ some r)
      × (r.id ≡ run)
      × (opened_tabs (browser_of_run db r) (opened_urls r.id db.restore_items) ≡ some tabs)
of_run-tabs db none run tabs h = absurd (ground (arith, ap run_of h))
of_run-tabs db (some r) run tabs h =
    let (same, found) =
      taken (opened_tabs (browser_of_run db r) (opened_urls r.id db.restore_items)) h in
    (r, refl, same, found)
  where
    taken :
        (o : Option (List OpenedTab))
        → Option.map {B = Option ℕ × List OpenedTab} (λ ts. (some r.id, ts)) o
          ≡ some (some run, tabs)
        → (r.id ≡ run) × (o ≡ some tabs)
    taken none k = cc
    taken (some ts) k = (ap (λ x. Option.get_or (run_of x) 0) k, ap split k)

opened_urls-IsAscending : (run : ℕ) (items : List ItemRow) → IsAscending (opened_urls run items)
unfolding opened_urls
opened_urls-IsAscending run items =
    sort_urls-IsAscending (map (λ i. i.item_key) (select (is_opened run) items))

-- When the tabs of a run are returned, it is one of the table than which none began later. The URLs
-- of the tabs that are offered for closing ascend, and every URL is among them as often as a tab of
-- it is recorded as launched for that run: a tab that was already open when the restore ran is none
-- of them.
pub tabs_opened_by_last_restore_lem :
    (db : Db) (run : ℕ) (tabs : List OpenedTab)
    → tabs_opened_by_last_restore db ≡ some (some run, tabs)
    → ((r : RunRow) × (r.id ≡ run) × IsLatest r db.restore_runs)
      × IsAscending (map (λ t. t.url) tabs)
      × ((u : String) → times u (map (λ t. t.url) tabs) ≡ launches run u db.restore_items)
unfolding tabs_opened_by_last_restore
tabs_opened_by_last_restore_lem db run tabs h =
    let (r, latest, same, found) = of_run-tabs db (latest_run db.restore_runs) run tabs h in
    let urls : map (λ t. t.url) tabs ≡ opened_urls run db.restore_items =
      opened_tabs-urls (browser_of_run db r) (opened_urls r.id db.restore_items) tabs found
      ∙ ap (λ n. opened_urls n db.restore_items) same in
    (
      (r, same, latest_run-IsLatest db.restore_runs r latest),
      rw urls (opened_urls-IsAscending run db.restore_items),
      λ u. rw urls (opened_urls-launches run u db.restore_items),
    )
