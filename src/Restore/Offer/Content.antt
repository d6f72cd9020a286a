-- ===== src/Restore/Offer/Content.antt =====
-- What an offer contains.
use mathlib.Core.Path.{subst}
use session_restore.Common.{
  ℕ, ◌≡◌, refl, String, Bool, true, false, Option, none, some, List, [], ◌∷◌, ◌++◌, map, arith,
  ◌==◌, String_eq, contains, select, select-All, All, All-both, All-append, All-select, All-imp,
  Bool-cases, inl, inr, ◌⊎◌,
}
use session_restore.Common.Int.{ℤ}
use session_restore.Exec.{ok_inj, Outcome, ok, err, Yields, continue-Yields, pure-Yields}
use session_restore.Store.Crypto.{Platform}
use session_restore.Store.Schema.{WindowRow}
use session_restore.Store.Db.{Db, setting_bool}
use session_restore.Restore.Payload.{
  RestoreTab, RestoreWindow, restore_window, push_window, offered_windows, build_payload,
  private_rows, open_rows, opened_windows, build_private_payload, private_windows, ordinary_windows,
}
use session_restore.Restore.Runs.{begin_run, record_items}
use session_restore.Restore.Pending.{BrowserSelection, PendingRestore, claim}
use session_restore.Restore.Offer.{
  RestoreSessionBody, Shared, has_tabs, keep_in, keep_tabs, narrow, recovered, claimed, offer_to,
  private_part, open_offer, restore_mode, effective_profile, build_offer, maybe_offer_restore,
}

-- An empty list of wanted keys wants them all.
abbrev pub wants : List String → String → Bool
wants [] key = true
wants (k ∷ ks) key = contains key (k ∷ ks)

abbrev pub AllWanted : List String → List RestoreTab → Type 0
AllWanted wanted tabs = All (λ t. wants wanted t.tab_key ≡ true) tabs

-- A window that the answer allows: an ordinary one that was selected, or a private one where
-- private windows were ticked, with selected tabs only.
abbrev pub IsAllowed : Option BrowserSelection → RestoreWindow → Type 0
IsAllowed none w = w.is_private ≡ false
IsAllowed (some s) w =
    ((w.is_private ≡ false) × (contains w.window_id s.windows ≡ true) × AllWanted s.tabs w.tabs)
    ⊎ ((w.is_private ≡ true) × (s.restore_private ≡ true) × AllWanted s.private_tabs w.tabs)

-- The windows of one kind, each with a tab to open.
abbrev pub IsOfKind : Bool → RestoreWindow → Type 0
IsOfKind is_private w = (w.is_private ≡ is_private) × (has_tabs w ≡ true)

push_window-IsOfKind :
    (b : Bool) (w : RestoreWindow) (rest : List RestoreWindow)
    → w.is_private ≡ b
    → All (IsOfKind b) rest
    → All (IsOfKind b) (push_window w rest)
push_window-IsOfKind b w rest h k = pushed w.tabs
  where
    pushed : (ts : List RestoreTab) → All (IsOfKind b) (push_window (record w { tabs = ts }) rest)
    pushed [] = k
    pushed (t ∷ ts) = ((h, refl), k)

offered_windows-IsOfKind :
    (db : Db) (id : ℕ) (rs : List WindowRow) → All (IsOfKind false) (offered_windows db id rs)
unfolding offered_windows
offered_windows-IsOfKind db id [] = tt
offered_windows-IsOfKind db id (r ∷ rs) =
    push_window-IsOfKind false _ _ refl (offered_windows-IsOfKind db id rs)

opened_windows-IsOfKind :
    (p : Platform) (now : ℤ) (id : ℕ) (rs : List WindowRow)
    → Yields (All (IsOfKind true)) (opened_windows p now id rs)
unfolding opened_windows
opened_windows-IsOfKind p now id [] s b e = pure-Yields (All (IsOfKind true)) [] tt s b e
opened_windows-IsOfKind p now id (r ∷ rs) s b e =
    continue-Yields (All (IsOfKind true))
      (open_rows p now (private_rows s id r.browser_window_id) s).0 _ _ b
      (λ tabs _ t c q.
        continue-Yields (All (IsOfKind true)) (opened_windows p now id rs t).0 _ _ c
          (λ rest k. pure-Yields (All (IsOfKind true)) _ (
            push_window-IsOfKind true (restore_window r true tabs) rest refl
              (opened_windows-IsOfKind p now id rs t rest k)))
          q)
      e

-- The selection of tabs keeps the kind of a window and leaves wanted tabs.
keep_tabs-lem :
    (P : RestoreWindow → Type 0) (b : Bool) (wanted : List String) (ws : List RestoreWindow)
    → ((w : RestoreWindow) → P w → (ts : List RestoreTab) → P (record w { tabs = ts }))
    → All (λ w. P w × IsOfKind b w) ws
    → All (λ w. P w × (IsOfKind b w × AllWanted wanted w.tabs)) (keep_tabs wanted ws)
unfolding keep_tabs
keep_tabs-lem P b [] ws f h = All-imp _ _ ws (λ w k. (k.0, (k.1, all_wanted w.tabs))) h
  where
    all_wanted : (ts : List RestoreTab) → AllWanted [] ts
    all_wanted [] = tt
    all_wanted (t ∷ ts) = (refl, all_wanted ts)
keep_tabs-lem P b (k ∷ ks) ws f h = kept (map (keep_in (k ∷ ks)) ws) (narrowed ws h)
  where
    Q : RestoreWindow → Type 0
    Q w = P w × ((w.is_private ≡ b) × AllWanted (k ∷ ks) w.tabs)

    narrowed :
        (vs : List RestoreWindow)
        → All (λ w. P w × IsOfKind b w) vs
        → All Q (map (keep_in (k ∷ ks)) vs)
    narrowed [] g = tt
    narrowed (v ∷ vs) (g, gs) =
        ((f v g.0 _, (g.1.0, select-All (λ t. contains t.tab_key (k ∷ ks)) v.tabs)), narrowed vs gs)

    kept :
        (vs : List RestoreWindow)
        → All Q vs
        → All (λ w. P w × (IsOfKind b w × AllWanted (k ∷ ks) w.tabs)) (select has_tabs vs)
    kept vs g =
        All-imp _ _ _ (λ w both. (both.0.0, ((both.0.1.0, both.1), both.0.1.1)))
          (All-both _ _ _ (All-select Q has_tabs vs g) (select-All has_tabs vs))

-- What the offer holds: allowed windows with something to open.
abbrev pub IsOfferable : Option BrowserSelection → RestoreWindow → Type 0
IsOfferable selection w = (has_tabs w ≡ true) × IsAllowed selection w

narrow-IsOfferable :
    (selection : Option BrowserSelection) (ws : List RestoreWindow)
    → All (IsOfKind false) ws
    → All (IsOfferable selection) (narrow selection ws)
unfolding narrow
narrow-IsOfferable none ws h = All-imp _ _ ws (λ w k. (k.1, k.0)) h
narrow-IsOfferable (some s) ws h =
    let chosen : RestoreWindow → Bool = λ w. contains w.window_id s.windows in
    All-imp _ _ _ (λ w k. (k.1.0.1, inl (k.1.0.0, k.0, k.1.1)))
      (keep_tabs-lem (λ w. contains w.window_id s.windows ≡ true) false s.tabs (select chosen ws)
        (λ w e ts. e)
        (All-both _ _ _ (select-All chosen ws) (All-select (IsOfKind false) chosen ws h)))

build_private_payload-IsOfKind :
    (p : Platform) (now : ℤ) (id : ℕ) (browser profile : String)
    → Yields (All (IsOfKind true)) (build_private_payload p now id browser profile)
unfolding build_private_payload
build_private_payload-IsOfKind p now id browser profile s b e =
    elim (Bool-cases (setting_bool "capture_private_windows" false s.settings)) [
      | inl on ↦
          opened_windows-IsOfKind p now id (private_windows s id browser profile) s b
            (ground (arith, on, e))
      | inr off ↦ absurd (ground (arith, off, e))
    ]

recovered-IsOfferable :
    (sel : BrowserSelection) (built : Outcome (List RestoreWindow)) (b : List RestoreWindow)
    → sel.restore_private ≡ true
    → ((ws : List RestoreWindow) → built ≡ ok ws → All (IsOfKind true) ws)
    → recovered sel built ≡ ok b
    → All (IsOfferable (some sel)) b
recovered-IsOfferable sel (err x) b on h e = subst (All (IsOfferable (some sel))) (ok_inj [] b e) tt
recovered-IsOfferable sel (ok ws) b on h e =
    subst (All (IsOfferable (some sel))) (ok_inj (keep_tabs sel.private_tabs ws) b e) (
      All-imp _ _ _ (λ w k. (k.1.0.1, inr (k.1.0.0, on, k.1.1)))
        (keep_tabs-lem (λ w. Unit {0}) true sel.private_tabs ws (λ w _ ts. tt)
          (All-imp _ _ ws (λ w k. (tt, k)) (h ws refl))))

private_part-IsOfferable :
    (p : Platform) (now : ℤ) (id : ℕ) (browser profile : String)
    (selection : Option BrowserSelection)
    → Yields (All (IsOfferable selection)) (private_part p now id browser profile selection)
unfolding private_part
private_part-IsOfferable p now id browser profile none s b e =
    subst (All (IsOfferable none)) (ok_inj [] b e) tt
private_part-IsOfferable p now id browser profile (some sel) s b e =
    elim (Bool-cases sel.restore_private) [
      | inl on ↦
          recovered-IsOfferable sel (build_private_payload p now id browser profile s).0 b on
            (λ ws k. build_private_payload-IsOfKind p now id browser profile s ws k)
            (ground (arith, on, e))
      | inr off ↦ subst (All (IsOfferable (some sel))) (ok_inj [] b (ground (arith, off, e))) tt
    ]

abbrev IsOffer : Option BrowserSelection → Option RestoreSessionBody → Type 0
IsOffer selection none = Unit
IsOffer selection (some body) = All (IsOfferable selection) body.windows

open_offer-IsOffer :
    (p : Platform) (now : ℤ) (id : ℕ) (mode browser profile : String)
    (selection : Option BrowserSelection) (ws : List RestoreWindow)
    → All (IsOfferable selection) ws
    → Yields (IsOffer selection) (open_offer p now id mode browser profile selection ws)
unfolding open_offer
open_offer-IsOffer p now id mode browser profile selection [] h s b e =
    pure-Yields (IsOffer selection) none tt s b e
open_offer-IsOffer p now id mode browser profile selection (w ∷ ws) h s b e =
    continue-Yields (IsOffer selection) (private_part p now id browser profile selection s).0 _ _ b
      (λ private k t c q.
        continue-Yields (IsOffer selection) (begin_run now id mode t).0 _ _ c
          (λ run _ u d r.
            continue-Yields (IsOffer selection) (record_items run (w ∷ ws ++ private) u).0 _ _ d
              (λ _ _.
                pure-Yields (IsOffer selection)
                  (some (record { run_id = run; windows = w ∷ ws ++ private }))
                  (All-append (IsOfferable selection) (w ∷ ws) private h
                    (private_part-IsOfferable p now id browser profile selection s private k)))
              r)
          q)
      e

offer_to-IsOffer :
    (p : Platform) (now : ℤ) (id : ℕ) (browser : String) (selection : Option BrowserSelection)
    (profile : Option String)
    → Yields (IsOffer selection) (offer_to p now id browser selection profile)
unfolding build_payload
offer_to-IsOffer p now id browser selection none s b e =
    pure-Yields (IsOffer selection) none tt s b e
offer_to-IsOffer p now id browser selection (some profile) s b e =
    open_offer-IsOffer p now id (restore_mode s) browser profile selection _
      (narrow-IsOfferable selection _
        (offered_windows-IsOfKind s id (ordinary_windows s id browser profile)))
      s b e

build_offer-IsOffer :
    (p : Platform) (now : ℤ) (id : ℕ) (browser profile : String)
    (selection : Option BrowserSelection)
    → Yields (IsOffer selection) (build_offer p now id browser profile selection)
unfolding build_offer
build_offer-IsOffer p now id browser profile selection s b e =
    elim (Bool-cases (restore_mode s == "off")) [
      | inl off ↦ subst (IsOffer selection) (ok_inj none b (ground (arith, off, e))) tt
      | inr on ↦
          offer_to-IsOffer p now id browser selection (effective_profile s id browser profile) s b
            (ground (arith, on, e))
    ]

claimed-IsOffer :
    (p : Platform) (now : ℤ) (browser profile : String) (selection : Option BrowserSelection)
    (taken : Option ℕ × PendingRestore)
    → Yields (IsOffer selection) (claimed p now browser profile selection taken)
claimed-IsOffer p now browser profile selection (none, pending) s b e =
    pure-Yields (IsOffer selection) none tt s b e
claimed-IsOffer p now browser profile selection (some id, pending) s b e =
    build_offer-IsOffer p now id browser profile selection s.db b e

-- An offer holds what the user's answer allows and nothing else: every window has a tab to open,
-- it is an ordinary window, and a selected one with selected tabs where there was a review, or it
-- is a private window and the user ticked private windows.
pub maybe_offer_restore-IsAllowed :
    (p : Platform) (now : ℤ) (browser profile : String) (s : Shared) (body : RestoreSessionBody)
    → (maybe_offer_restore p now browser profile s).0 ≡ ok (some body)
    → All (IsOfferable s.pending.selection) body.windows
unfolding maybe_offer_restore
maybe_offer_restore-IsAllowed p now browser profile s body e =
    claimed-IsOffer p now browser profile s.pending.selection (claim browser profile s.pending) s
      (some body) (ground (arith, e))
