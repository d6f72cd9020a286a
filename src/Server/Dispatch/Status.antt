-- ===== src/Server/Dispatch/Status.antt =====
-- What a session writes leaves the table of browsers alone, and a `hello` writes one row of it.
use session_restore.Common.{
  ℕ, ◌≡◌, refl, ap, ◌∙◌, Bool, true, false, String, List, [], ◌∷◌, arith, suc, if◌then◌else◌,
}
use session_restore.Common.Int.{ℤ}
use session_restore.Exec.{Keeps, for_each, for_each-Keeps, bind-Keeps, continue-Keeps}
use session_restore.Proto.{BrowserWindowDelta, TabDelta, TabGroupDelta, StateBody, ResultItem}
use session_restore.Store.Crypto.{Platform, seal}
use session_restore.Store.Schema.{StatusRow}
use session_restore.Store.Db.{Db, ItemRow}
use session_restore.Store.Keys.{draw, active_dek}
use session_restore.Store.Keys.Frame.{active_dek-KeyFrame}
use session_restore.Ingest.{
  live_ctx, IngestCtx, ingest_tab, store_private_encrypted, seal_and_store, store_normal,
  remove_tab,
}
use session_restore.Server.State.{
  owned, reap_if, Reporter, apply_window, apply_group, reap_missing, reap_all, reap_one,
  apply_state, apply_in,
}
use session_restore.Restore.Runs.{result_row, is_restored, apply_result, apply_items, put_item}

module _ (rows : List StatusRow) where
  abbrev pub Same : Db → Type 0
  Same db = db.browser_status ≡ rows

  active_dek-Same : (p : Platform) (now : ℤ) → Keeps Same (active_dek p now)
  active_dek-Same p now s h =
      ap (λ (d : Db). d.browser_status) (active_dek-KeyFrame p s now s refl) ∙ h

  seal_and_store-Same :
      (ctx : IngestCtx) (tab : TabDelta) (key : ℕ × List ℕ)
      → Keeps Same (seal_and_store ctx tab key)
  unfolding seal_and_store draw
  seal_and_store-Same ctx tab key s h =
      continue-Keeps Same (seal ctx.platform key.1 _ _ _) _ (λ c t k. k) _ h

  store_private_encrypted-Same :
      (ctx : IngestCtx) (tab : TabDelta) → Keeps Same (store_private_encrypted ctx tab)
  unfolding store_private_encrypted
  store_private_encrypted-Same ctx tab =
      bind-Keeps Same (active_dek ctx.platform ctx.now) _ (active_dek-Same ctx.platform ctx.now)
        (seal_and_store-Same ctx tab)

  ingest_tab-Same : (ctx : IngestCtx) (tab : TabDelta) → Keeps Same (ingest_tab ctx tab)
  unfolding ingest_tab store_normal remove_tab
  ingest_tab-Same ctx tab s h = ground (arith, store_private_encrypted-Same ctx tab s, h)

  apply_window-Same :
      (now : ℤ) (r : Reporter) (w : BrowserWindowDelta) → Keeps Same (apply_window now r w)
  unfolding apply_window
  apply_window-Same now r w s h = ground (arith, h)

  apply_group-Same : (g : TabGroupDelta) → Keeps Same (apply_group g)
  unfolding apply_group
  apply_group-Same g s h = ground (arith, h)

  reap_all-Same :
      (body : StateBody) (windows : List String) (s : Db) → Same s → Same (reap_all body windows s)
  unfolding reap_all
  reap_all-Same body [] s h = h
  reap_all-Same body (w ∷ ws) s h =
      reap_all-Same body ws (reap_one body w s) (unfold reap_one in ground (arith, h))

  reap_if-Same :
      (authoritative : Bool) (body : StateBody) (r : Reporter)
      → Keeps Same (reap_if authoritative body r)
  unfolding reap_missing
  reap_if-Same true body r s h = reap_all-Same body (owned r s) s h
  reap_if-Same false body r s h = h

  apply_in-Same :
      (ctx : IngestCtx) (body : StateBody) (authoritative : Bool) (r : Reporter)
      → Keeps Same (apply_in ctx body authoritative r)
  unfolding apply_in
  apply_in-Same ctx body authoritative r =
      bind-Keeps Same (for_each (apply_window ctx.now r) body.windows) _
        (for_each-Keeps Same _ (apply_window-Same ctx.now r) body.windows)
        (λ _.
          bind-Keeps Same (for_each (ingest_tab ctx) body.tabs) _
            (for_each-Keeps Same _ (ingest_tab-Same ctx) body.tabs)
            (λ _.
              bind-Keeps Same (for_each apply_group body.groups) _
                (for_each-Keeps Same _ apply_group-Same body.groups)
                (λ _. reap_if-Same authoritative body r)))

  pub apply_state-Same :
      (p : Platform) (now : ℤ) (body : StateBody) (authoritative : Bool) (r : Reporter)
      → Keeps Same (apply_state p now body authoritative r)
  unfolding apply_state
  apply_state-Same p now body authoritative r s h =
      apply_in-Same (live_ctx p now s) body authoritative r s h

  pub put_item-Same : (i : ItemRow) → Keeps Same (put_item i)
  unfolding put_item
  put_item-Same i s h = ground (arith, h)

  apply_items-Same :
      (run good bad : ℕ) (items : List ResultItem) → Keeps Same (apply_items run good bad items)
  unfolding apply_items
  apply_items-Same run good bad [] = λ s h. h
  apply_items-Same run good bad (i ∷ is) =
      bind-Keeps Same (put_item (result_row run i)) _ (put_item-Same (result_row run i)) (λ _.
        let counts : ℕ × ℕ = if is_restored i then (suc good, bad) else (good, suc bad) in
        apply_items-Same run counts.0 counts.1 is)

  pub apply_result-Same :
      (now : ℤ) (run : ℕ) (items : List ResultItem) → Keeps Same (apply_result now run items)
  unfolding apply_result
  apply_result-Same now run items =
      bind-Keeps Same (apply_items run 0 0 items) _ (apply_items-Same run 0 0 items) (λ c s h. h)
