-- ===== src/Server/Dispatch/Offered.antt =====
-- What an offer writes leaves the table of browsers alone.
use session_restore.Common.{
  ℕ, true, none, some, Option, String, List, [], ◌∷◌, arith, ◌++◌, if_both,
}
use session_restore.Common.Int.{ℤ, ltb_ℤ}
use session_restore.Exec.{
  bad_json, Outcome, ok, Exec, Keeps, pure, for_each-Keeps, bind-Keeps, continue-Keeps, ◌>>=◌,
}
use session_restore.Store.Crypto.{Platform, unseal, or_error, aad}
use session_restore.Store.Schema.{StatusRow}
use session_restore.Store.Db.{Db, SnapshotKind, pre_restore}
use session_restore.Store.Keys.{dek_by_id}
use session_restore.Store.Snapshot.{create_from_live, copy_tables}
use session_restore.Store.Schema.{WindowRow, PrivateRow}
use session_restore.Restore.Payload.{
  private_rows, private_windows, push_window, restore_window, RestoreTab, RestoreWindow, open_row,
  open_rows, opened_windows, build_private_payload,
}
use session_restore.Restore.Pending.{BrowserSelection, PendingRestore, claim}
use session_restore.Restore.Offer.{
  RestoreSessionBody, claimed, effective_profile, is_declined, Shared, private_part, open_offer,
  build_offer, offer_to, maybe_offer_restore,
}
use session_restore.Restore.Runs.{
  pending_item, undo_point, recent_undo, begin_run, insert_run, record_items,
}
use session_restore.Server.Dispatch.Status.{Same, put_item-Same}

module _ (rows : List StatusRow) where
  copy_tables-Same : (id : ℕ) → Keeps (Same rows) (copy_tables id)
  unfolding copy_tables
  copy_tables-Same id s h = ground (arith, h)

  create_from_live-Same :
      (now : ℤ) (kind : SnapshotKind) (label : Option String)
      → Keeps (Same rows) (create_from_live now kind label)
  unfolding create_from_live
  create_from_live-Same now kind label s h =
      if_both (λ (r : Outcome (Option ℕ) × Db). (Same rows) r.1) _ _ _ h
        (continue-Keeps (Same rows) (copy_tables _ _).0 _ (λ _ t k. k) _ (copy_tables-Same _ _ h))

  undo_point-Same : (now : ℤ) (recent : Option ℕ) → Keeps (Same rows) (undo_point now recent)
  undo_point-Same now (some id) s h = h
  undo_point-Same now none s h = create_from_live-Same now pre_restore (some "before restore") s h

  insert_run-Same :
      (now : ℤ) (id : ℕ) (mode : String) (undo : Option ℕ)
      → Keeps (Same rows) (insert_run now id mode undo)
  unfolding insert_run
  insert_run-Same now id mode undo s h = if_both (λ (r : Outcome ℕ × Db). (Same rows) r.1) _ _ _ h h

  begin_run-Same : (now : ℤ) (id : ℕ) (mode : String) → Keeps (Same rows) (begin_run now id mode)
  unfolding begin_run
  begin_run-Same now id mode s =
      bind-Keeps (Same rows) (undo_point now (recent_undo now id s.restore_runs)) _
        (undo_point-Same now (recent_undo now id s.restore_runs)) (insert_run-Same now id mode) s

  record_items-Same :
      (run : ℕ) (windows : List RestoreWindow) → Keeps (Same rows) (record_items run windows)
  unfolding record_items
  record_items-Same run windows =
      for_each-Keeps (Same rows) _
        (λ w. for_each-Keeps (Same rows) _ (λ t. put_item-Same rows (pending_item run t)) w.tabs)
        windows

  dek_by_id-Same : (p : Platform) (id : ℕ) → Keeps (Same rows) (dek_by_id p id)
  unfolding dek_by_id
  dek_by_id-Same p id s h = ground (arith, h)

  open_row-Same : (p : Platform) (r : PrivateRow) → Keeps (Same rows) (open_row p r)
  unfolding open_row
  open_row-Same p r =
      bind-Keeps (Same rows) (dek_by_id p r.key_id) _ (dek_by_id-Same p r.key_id) (λ dek s h.
        continue-Keeps (Same rows) (unseal p dek (aad r.tab_key r.key_id) r.nonce r.ciphertext) _
          (λ plain t k.
            continue-Keeps (Same rows) (or_error bad_json (p.from_json plain)) _ (λ _ u l. l) t k)
          s h)

  open_rows-Same :
      (p : Platform) (now : ℤ) (rs : List PrivateRow) → Keeps (Same rows) (open_rows p now rs)
  unfolding open_rows
  open_rows-Same p now [] = λ s h. h
  open_rows-Same p now (r ∷ rs) =
      if_both (λ (m : Exec Db (List RestoreTab)). Keeps (Same rows) m) (ltb_ℤ r.expires_at now)
        (open_rows p now rs) (open_row p r >>= λ t. open_rows p now rs >>= λ ts. pure (t ∷ ts))
        (open_rows-Same p now rs)
        (bind-Keeps (Same rows) (open_row p r) _ (open_row-Same p r) (λ t.
          bind-Keeps (Same rows) (open_rows p now rs) (λ ts. pure (t ∷ ts))
            (open_rows-Same p now rs) (λ ts s h. h)))

  opened_windows-Same :
      (p : Platform) (now : ℤ) (id : ℕ) (ws : List WindowRow)
      → Keeps (Same rows) (opened_windows p now id ws)
  unfolding opened_windows
  opened_windows-Same p now id [] = λ s h. h
  opened_windows-Same p now id (w ∷ ws) = λ s.
      bind-Keeps (Same rows) (open_rows p now (private_rows s id w.browser_window_id)) _
        (open_rows-Same p now (private_rows s id w.browser_window_id))
        (λ tabs.
          bind-Keeps (Same rows) (opened_windows p now id ws)
            (λ rest. pure (push_window (restore_window w true tabs) rest))
            (opened_windows-Same p now id ws) (λ rest t k. k))
        s

  build_private_payload-Same :
      (p : Platform) (now : ℤ) (id : ℕ) (browser profile : String)
      → Keeps (Same rows) (build_private_payload p now id browser profile)
  unfolding build_private_payload
  build_private_payload-Same p now id browser profile s h =
      if_both (λ (r : Outcome (List RestoreWindow) × Db). (Same rows) r.1) _ _ _
        (opened_windows-Same p now id (private_windows s id browser profile) s h) h

  private_part-Same :
      (p : Platform) (now : ℤ) (id : ℕ) (browser profile : String)
      (selection : Option BrowserSelection)
      → Keeps (Same rows) (private_part p now id browser profile selection)
  unfolding private_part
  private_part-Same p now id browser profile none s h = h
  private_part-Same p now id browser profile (some c) s h =
      if_both (λ (r : Outcome (List RestoreWindow) × Db). (Same rows) r.1) _ _ _
        (build_private_payload-Same p now id browser profile s h) h

  open_offer-Same :
      (p : Platform) (now : ℤ) (id : ℕ) (mode browser profile : String)
      (selection : Option BrowserSelection) (ws : List RestoreWindow)
      → Keeps (Same rows) (open_offer p now id mode browser profile selection ws)
  unfolding open_offer
  open_offer-Same p now id mode browser profile selection [] = λ s h. h
  open_offer-Same p now id mode browser profile selection (w ∷ ws) =
      bind-Keeps (Same rows) (private_part p now id browser profile selection) _
        (private_part-Same p now id browser profile selection)
        (λ extra.
          bind-Keeps (Same rows) (begin_run now id mode) _ (begin_run-Same now id mode) (λ run.
            bind-Keeps (Same rows) (record_items run (w ∷ ws ++ extra)) _
              (record_items-Same run (w ∷ ws ++ extra)) (λ _ s h. h)))

  offer_to-Same :
      (p : Platform) (now : ℤ) (id : ℕ) (browser : String) (selection : Option BrowserSelection)
      (profile : Option String)
      → Keeps (Same rows) (offer_to p now id browser selection profile)
  offer_to-Same p now id browser selection none s h = h
  offer_to-Same p now id browser selection (some profile) s h =
      open_offer-Same p now id _ browser profile selection _ s h

  build_offer-Same :
      (p : Platform) (now : ℤ) (id : ℕ) (browser profile : String)
      (selection : Option BrowserSelection)
      → Keeps (Same rows) (build_offer p now id browser profile selection)
  unfolding build_offer
  build_offer-Same p now id browser profile selection s h =
      if_both (λ (r : Outcome (Option RestoreSessionBody) × Db). (Same rows) r.1) _ _ _ h
        (offer_to-Same p now id browser selection (effective_profile s id browser profile) s h)

  claimed-Same :
      (p : Platform) (now : ℤ) (browser profile : String) (selection : Option BrowserSelection)
      (c : Option ℕ × PendingRestore) (s : Shared)
      → (Same rows) s.db
      → (Same rows) (claimed p now browser profile selection c s).1.db
  claimed-Same p now browser profile selection (none, pending) s h = h
  claimed-Same p now browser profile selection (some id, pending) s h =
      build_offer-Same p now id browser profile selection s.db h

  pub maybe_offer_restore-Same :
      (p : Platform) (now : ℤ) (browser profile : String) (s : Shared)
      → (Same rows) s.db
      → (Same rows) (maybe_offer_restore p now browser profile s).1.db
  unfolding maybe_offer_restore
  maybe_offer_restore-Same p now browser profile s h =
      let asked =
        claimed p now browser profile s.pending.selection (claim browser profile s.pending) s in
      let kept =
        claimed-Same p now browser profile s.pending.selection (claim browser profile s.pending) s
          h in
      if_both (λ (r : Outcome (Option RestoreSessionBody) × Shared). (Same rows) r.1.db)
        s.pending.awaiting_review (ok none, s) _ h
        (if_both (λ (r : Outcome (Option RestoreSessionBody) × Shared). (Same rows) r.1.db)
          (is_declined s.pending.selection) (ok none, s) asked h kept)
