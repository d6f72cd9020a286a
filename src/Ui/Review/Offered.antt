-- ===== src/Ui/Review/Offered.antt =====
-- The review shows what is offered.
use session_restore.Common.{
  ℕ, ◌≡◌, refl, sym, ap, ◌∙◌, String, Bool, true, false, not, ◌&&◌, List, [], ◌∷◌, map, ◌==◌, ℕ_eq,
  String_eq, select, Bool-cases, inl, inr, arith,
}
use session_restore.Common.{Option}
use session_restore.Common.Int.{ℤ}
use session_restore.Proto.{as_str}
use session_restore.Store.Schema.{WindowRow, TabRow}
use session_restore.Store.Db.{Db}
use session_restore.Restore.Payload.{
  RestoreTab, RestoreWindow, restore_tab, restore_window, push_window, tab_rows, offered_windows,
  is_window_of, build_payload,
}
use session_restore.Ui.Review.{
  ReviewTab, ReviewBrowserWindow, review_tab, push_shown, review_windows, collect,
}

-- A window by its id, and its tabs by key and address.
abbrev pub Outline : Type 0
Outline = String × List (String × String)

abbrev offered_tab : RestoreTab → String × String
offered_tab t = (t.tab_key, t.url)

abbrev seen_tab : ReviewTab → String × String
seen_tab t = (t.tab_key, t.url)

abbrev pub outline_of_offer : RestoreWindow → Outline
outline_of_offer w = (w.window_id, map offered_tab w.tabs)

abbrev pub outline_of_review : ReviewBrowserWindow → Outline
outline_of_review w = (w.window_id, map seen_tab w.tabs)

abbrev pub shown_of : String → String → ReviewBrowserWindow → Bool
shown_of browser profile w = w.browser == browser && w.profile == profile

abbrev shown_window : WindowRow → List TabRow → ReviewBrowserWindow
shown_window w rows = record {
  window_id = w.browser_window_id;
  browser = as_str w.browser;
  profile = w.profile_key;
  tabs = map review_tab rows;
}

outline_tabs :
    (rows : List TabRow)
    → map seen_tab (map review_tab rows) ≡ map offered_tab (map restore_tab rows)
outline_tabs [] = refl
outline_tabs (r ∷ rs) = ap (λ ts. (r.tab_key, r.url) ∷ ts) (outline_tabs rs)

-- One window of the browser and the profile, with its tabs and what follows.
outline_window :
    (browser profile : String) (w : WindowRow) (rows : List TabRow)
    → (shown : List ReviewBrowserWindow) (offered : List RestoreWindow)
    → shown_of browser profile (shown_window w rows) ≡ true
    → map outline_of_review (select (shown_of browser profile) shown) ≡ map outline_of_offer offered
    → map outline_of_review
        (select (shown_of browser profile) (push_shown (shown_window w rows) shown))
      ≡ map outline_of_offer (push_window (restore_window w false (map restore_tab rows)) offered)
unfolding select
outline_window browser profile w [] shown offered e h = h
outline_window browser profile w (r ∷ rs) shown offered e h = rw e (
    ap
      (λ ts.
        (w.browser_window_id, (r.tab_key, r.url) ∷ ts)
        ∷ map outline_of_review (select (shown_of browser profile) shown))
      (outline_tabs rs)
    ∙ ap
        (λ os.
          (w.browser_window_id, (r.tab_key, r.url) ∷ map offered_tab (map restore_tab rs)) ∷ os)
        h)

-- One of another.
other_window :
    (browser profile : String) (w : WindowRow) (rows : List TabRow)
    → (shown : List ReviewBrowserWindow) → shown_of browser profile (shown_window w rows) ≡ false
    → select (shown_of browser profile) (push_shown (shown_window w rows) shown)
      ≡ select (shown_of browser profile) shown
unfolding select
other_window browser profile w [] shown e = refl
other_window browser profile w (r ∷ rs) shown e = rw e refl

&&-swap : (a s b : Bool) → ((a && s) && b) ≡ ((a && b) && s)
&&-swap a s b = ground arith

abbrev is_shown : ℕ → WindowRow → Bool
is_shown id w = w.snapshot_id == id && not w.is_private

abbrev is_offered : ℕ → String → String → WindowRow → Bool
is_offered id browser profile w = is_window_of id browser profile w && not w.is_private

is_offered_iff :
    (id : ℕ) (browser profile : String) (w : WindowRow) (rows : List TabRow)
    → is_offered id browser profile w
      ≡ (is_shown id w && shown_of browser profile (shown_window w rows))
is_offered_iff id browser profile w rows =
    &&-swap (w.snapshot_id == id) (as_str w.browser == browser && w.profile_key == profile)
      (not w.is_private)

select-yes {ℓ} :
    {A : Type ℓ} (p : A → Bool) (x : A) (xs : List A)
    → p x ≡ true
    → select p (x ∷ xs) ≡ x ∷ select p xs
unfolding select
select-yes p x xs e = rw e refl

select-no {ℓ} :
    {A : Type ℓ} (p : A → Bool) (x : A) (xs : List A)
    → p x ≡ false
    → select p (x ∷ xs) ≡ select p xs
unfolding select
select-no p x xs e = rw e refl

outlines :
    (db : Db) (id : ℕ) (browser profile : String) (ws : List WindowRow)
    → map outline_of_review
        (select (shown_of browser profile) (review_windows db id (select (is_shown id) ws)))
      ≡ map outline_of_offer (offered_windows db id (select (is_offered id browser profile) ws))
unfolding review_windows offered_windows select
outlines db id browser profile [] = refl
outlines db id browser profile (w ∷ ws) =
    let rest = outlines db id browser profile ws in
    let rows = tab_rows db id w.browser_window_id in
    let iff = is_offered_iff id browser profile w rows in
    let seen : List WindowRow → List Outline =
      λ xs. map outline_of_review (select (shown_of browser profile) (review_windows db id xs)) in
    let offered : List WindowRow → List Outline =
      λ xs. map outline_of_offer (offered_windows db id xs) in
    elim (Bool-cases (is_shown id w)) [
      | inl shown ↦ elim (Bool-cases (shown_of browser profile (shown_window w rows))) [
        | inl e ↦
            ap seen (select-yes (is_shown id) w ws shown)
            ∙ outline_window browser profile w rows _ _ e rest
            ∙ sym (
                ap offered (
                  select-yes (is_offered id browser profile) w ws (
                    iff ∙ ap (λ b. b && shown_of browser profile (shown_window w rows)) shown ∙ e)))
        | inr e ↦
            ap seen (select-yes (is_shown id) w ws shown)
            ∙ ap (map outline_of_review) (other_window browser profile w rows _ e)
            ∙ rest
            ∙ sym (
                ap offered (
                  select-no (is_offered id browser profile) w ws (
                    iff ∙ ap (λ b. b && shown_of browser profile (shown_window w rows)) shown ∙ e)))
      ]
      | inr hidden ↦
          ap seen (select-no (is_shown id) w ws hidden)
          ∙ rest
          ∙ sym (
              ap offered (
                select-no (is_offered id browser profile) w ws
                  (iff ∙ ap (λ b. b && shown_of browser profile (shown_window w rows)) hidden)))
    ]

-- Of each browser and profile, the review shows the windows that a restore offers it, in their
-- order, with the same tabs: no window or tab is offered that was not shown, and none shown that
-- is not offered.
pub collect-build_payload :
    (parse : String → Option (List String)) (now : ℤ) (id : ℕ) (browser profile : String) (db : Db)
    → map outline_of_review
        (select (shown_of browser profile) (collect parse now id db).browser_windows)
      ≡ map outline_of_offer (build_payload db id browser profile)
unfolding collect build_payload
collect-build_payload parse now id browser profile db =
    outlines db id browser profile db.browser_windows
