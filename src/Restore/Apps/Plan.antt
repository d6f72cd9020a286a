-- ===== src/Restore/Apps/Plan.antt =====
-- The plan that is read from a snapshot (`plan_from_snapshot`).
use session_restore.Common.{
  ℕ, suc, ◌≤◌, ◌≡◌, refl, ap, ◌∙◌, Bool, true, false, not, ◌&&◌, List, [], ◌∷◌, map, arith, ◌==◌,
  ℕ_eq, select, select-All, length, All, All-imp, Bool-cases, inl, inr,
}
use session_restore.Store.Schema.{AppRow}
use session_restore.Store.Db.{Db}
use session_restore.Restore.Apps.{
  Desktop, PlannedApp, rank, app_before, insert_app, sort_apps, planned_app, plan_from_snapshot,
}

-- Tier A first, tier D last.
abbrev pub IsByTier : List PlannedApp → Type 0
IsByTier [] = Unit
IsByTier (a ∷ as') = All (λ b. rank a.tier ≤ rank b.tier) as' × IsByTier as'

abbrev RowsByTier : List AppRow → Type 0
RowsByTier [] = Unit
RowsByTier (a ∷ as') = All (λ b. rank a.restore_tier ≤ rank b.restore_tier) as' × RowsByTier as'

module _ (P : AppRow → Type 0) where
  All-insert_app : (a : AppRow) (bs : List AppRow) → P a → All P bs → All P (insert_app a bs)
  unfolding insert_app
  All-insert_app a [] h hs = (h, tt)
  All-insert_app a (b ∷ bs) h (hb, hbs) = elim (Bool-cases (app_before a b)) [
    | inl e ↦ rw e (h, (hb, hbs))
    | inr e ↦ rw e (hb, All-insert_app a bs h hbs)
  ]

  All-sort_apps : (as' : List AppRow) → All P as' → All P (sort_apps as')
  unfolding sort_apps
  All-sort_apps [] h = tt
  All-sort_apps (a ∷ as') (h, hs) = All-insert_app a (sort_apps as') h (All-sort_apps as' hs)

before_rank : (a b : AppRow) → app_before a b ≡ true → rank a.restore_tier ≤ rank b.restore_tier
before_rank a b h = ground (arith, h)

not_before_rank :
    (a b : AppRow) → app_before a b ≡ false → rank b.restore_tier ≤ rank a.restore_tier
not_before_rank a b h = ground (arith, h)

insert_app-RowsByTier :
    (a : AppRow) (bs : List AppRow) → RowsByTier bs → RowsByTier (insert_app a bs)
unfolding insert_app
insert_app-RowsByTier a [] h = (tt, tt)
insert_app-RowsByTier a (b ∷ bs) (h, hs) = elim (Bool-cases (app_before a b)) [
  | inl e ↦
      let first = before_rank a b e in
      rw e ((first, All-imp _ _ bs (λ c k. omega (arith, first, k)) h), (h, hs))
  | inr e ↦ rw e (
    All-insert_app (λ c. rank b.restore_tier ≤ rank c.restore_tier) a bs (not_before_rank a b e) h,
    insert_app-RowsByTier a bs hs,
  )
]

sort_apps-RowsByTier : (as' : List AppRow) → RowsByTier (sort_apps as')
unfolding sort_apps
sort_apps-RowsByTier [] = tt
sort_apps-RowsByTier (a ∷ as') = insert_app-RowsByTier a (sort_apps as') (sort_apps-RowsByTier as')

length-insert_app : (a : AppRow) (bs : List AppRow) → length (insert_app a bs) ≡ suc (length bs)
unfolding insert_app
length-insert_app a [] = refl
length-insert_app a (b ∷ bs) = ground (arith, length-insert_app a bs)

length-sort_apps : (as' : List AppRow) → length (sort_apps as') ≡ length as'
unfolding sort_apps
length-sort_apps [] = refl
length-sort_apps (a ∷ as') = length-insert_app a (sort_apps as') ∙ ap suc (length-sort_apps as')

module _ (d : Desktop) (db : Db) where
  plan-IsByTier : (as' : List AppRow) → RowsByTier as' → IsByTier (map (planned_app d db) as')
  unfolding planned_app
  plan-IsByTier [] h = tt
  plan-IsByTier (a ∷ as') (h, hs) = (later as' h, plan-IsByTier as' hs)
    where
      later :
          (bs : List AppRow)
          → All (λ b. rank a.restore_tier ≤ rank b.restore_tier) bs
          → All (λ b. rank a.restore_tier ≤ rank b.tier) (map (planned_app d db) bs)
      later [] k = tt
      later (b ∷ bs) (k, ks) = (k, later bs ks)

  plan-no_browser :
      (as' : List AppRow)
      → All (λ r. r.is_browser ≡ false) as'
      → All (λ a. a.is_browser ≡ false) (map (planned_app d db) as')
  unfolding planned_app
  plan-no_browser [] h = tt
  plan-no_browser (a ∷ as') (h, hs) = (h, plan-no_browser as' hs)

  length-plan : (as' : List AppRow) → length (map (planned_app d db) as') ≡ length as'
  length-plan [] = refl
  length-plan (a ∷ as') = ap suc (length-plan as')

-- The plan has one entry for every application of the snapshot that is not a browser, and none for
-- a browser; it begins with the most exact tier and never goes back to a more exact one.
pub plan_from_snapshot_lem :
    (d : Desktop) (db : Db) (id : ℕ)
    → let plan = plan_from_snapshot d db id in
      (length plan ≡ length (select (λ r. r.snapshot_id == id && not r.is_browser) db.apps))
      × All (λ a. a.is_browser ≡ false) plan
      × IsByTier plan
unfolding plan_from_snapshot
plan_from_snapshot_lem d db id =
    let wanted : AppRow → Bool = λ r. r.snapshot_id == id && not r.is_browser in
    let rows : List AppRow = select wanted db.apps in
    (
      length-plan d db (sort_apps rows) ∙ length-sort_apps rows,
      plan-no_browser d db (sort_apps rows) (
          All-sort_apps (λ r. r.is_browser ≡ false) rows
            (All-imp _ _ rows (λ r k. ground (arith, k)) (select-All wanted db.apps))),
      plan-IsByTier d db (sort_apps rows) (sort_apps-RowsByTier rows),
    )
