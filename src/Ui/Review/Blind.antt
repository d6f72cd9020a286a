-- ===== src/Ui/Review/Blind.antt =====
-- The review does not depend on what the private rows hold.
use session_restore.Common.{
  ℕ, ◌≡◌, refl, ap, ◌∙◌, String, Bool, false, not, ◌&&◌, Option, List, [], ◌∷◌, map, ◌==◌, ℕ_eq,
  String_eq, select, Bool-cases, inl, inr,
}
use session_restore.Common.Int.{ℤ, pos}
use session_restore.Store.Schema.{PrivateRow, WindowRow}
use session_restore.Store.Db.{Db, setting_bool}
use session_restore.Ui.Review.{
  is_unexpired, summary, private_summary_of, collect, review_windows, push_shown,
}

-- A private row of which only the window, the snapshot and the expiry are left.
abbrev pub masked : PrivateRow → PrivateRow
masked r = record r {
  tab_key = "";
  tab_index = pos 0;
  nonce = [];
  ciphertext = [];
  key_id = 0;
  updated_at = pos 0;
}

-- A column that masking keeps, of the rows that a test lets through that masking does not change.
map-select-masked {ℓ} :
    {A : Type ℓ} (p : PrivateRow → Bool) (column : PrivateRow → A) (rows : List PrivateRow)
    → ((r : PrivateRow) → p (masked r) ≡ p r)
    → ((r : PrivateRow) → column (masked r) ≡ column r)
    → map column (select p (map masked rows)) ≡ map column (select p rows)
unfolding select
map-select-masked p column [] f g = refl
map-select-masked p column (r ∷ rs) f g =
    let rest = map-select-masked p column rs f g in
    elim (Bool-cases (p r)) [
      | inl e ↦
          rw (f r, e)
            (ap (λ c. c ∷ map column (select p (map masked rs))) (g r)
              ∙ ap (λ cs. column r ∷ cs) rest)
      | inr e ↦ rw (f r, e) rest
    ]

abbrev without_contents : Db → Db
without_contents db = record db { tabs_private = map masked db.tabs_private }

review_windows-masked :
    (db : Db) (id : ℕ) (ws : List WindowRow)
    → review_windows (without_contents db) id ws ≡ review_windows db id ws
unfolding review_windows
review_windows-masked db id [] = refl
review_windows-masked db id (w ∷ ws) = ap (push_shown _) (review_windows-masked db id ws)

private_summary_of-masked :
    (now : ℤ) (id : ℕ) (db : Db)
    → private_summary_of now id (without_contents db) ≡ private_summary_of now id db
unfolding private_summary_of
private_summary_of-masked now id db =
    let on = setting_bool "capture_private_windows" false db.settings in
    ap
      (λ ws.
        summary now on ws
          (map (λ r. r.expires_at) (select (is_unexpired now id) (map masked db.tabs_private))))
      (map-select-masked (is_unexpired now id) (λ r. r.browser_window_id) db.tabs_private
        (λ r. refl) (λ r. refl))
    ∙ ap
        (summary now on
          (map (λ r. r.browser_window_id) (select (is_unexpired now id) db.tabs_private)))
        (map-select-masked (is_unexpired now id) (λ r. r.expires_at) db.tabs_private (λ r. refl)
          (λ r. refl))

-- What the review shows before private tabs are asked for is the same whatever the private rows
-- hold: neither their contents nor their keys and places among the tabs show in it.
pub collect-masked :
    (parse : String → Option (List String)) (now : ℤ) (id : ℕ) (db : Db)
    → collect parse now id (record db { tabs_private = map masked db.tabs_private })
      ≡ collect parse now id db
unfolding collect private_summary_of
collect-masked parse now id db =
    ap
      (λ ws. record (collect parse now id db) {
        browser_windows = ws;
        private_summary = private_summary_of now id (without_contents db);
      })
      (review_windows-masked db id
        (select (λ w. w.snapshot_id == id && not w.is_private) db.browser_windows))
    ∙ ap (λ s. record (collect parse now id db) { private_summary = s })
        (private_summary_of-masked now id db)
