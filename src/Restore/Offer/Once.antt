-- ===== src/Restore/Offer/Once.antt =====
-- An offer is made at most once, and not against the user's answer.
use session_restore.Common.{
  ℕ, ◌+◌, ◌≤◌, ◌≡◌, refl, sym, String, Bool, true, false, Option, none, some, List, [], ◌∷◌, arith,
  Bool-cases, Option-cases, ◌==◌, String_eq, ==-refl, eq_of_==, contains, any, if◌then◌else◌, ◌⊎◌,
  inl, inr,
}
use session_restore.Common.Int.{ℤ}
use session_restore.Exec.{Outcome, ok}
use session_restore.Store.Crypto.{Platform}
use session_restore.Store.Db.{Db}
use session_restore.Restore.Pending.{
  BrowserSelection, PendingRestore, offer_key, claim, review_dismissed, set_selection,
}
use session_restore.Restore.Offer.{RestoreSessionBody, Shared, is_declined, maybe_offer_restore}

claim-offered :
    (browser profile : String) (p : PendingRestore)
    → contains (offer_key browser profile) p.offered ≡ true
    → claim browser profile p ≡ (none, p)
unfolding claim
claim-offered browser profile p h = ground arith

claim-grows :
    (browser profile key : String) (p : PendingRestore)
    → contains key p.offered ≡ true
    → contains key (claim browser profile p).1.offered ≡ true
unfolding claim any
claim-grows browser profile key p h = ground arith

claim-some :
    (browser profile : String) (p : PendingRestore) (id : ℕ)
    → (claim browser profile p).0 ≡ some id
    → contains (offer_key browser profile) (claim browser profile p).1.offered ≡ true
unfolding claim any
claim-some browser profile p id h = ground (arith, ==-refl (offer_key browser profile))

-- No offer is made, and nothing changes, while the review is unanswered, after the user declined,
-- and to a browser and profile that had its offer.
pub maybe_offer_restore-refused :
    (p : Platform) (now : ℤ) (browser profile : String) (s : Shared)
    → (s.pending.awaiting_review ≡ true)
      ⊎ ((is_declined s.pending.selection ≡ true)
          ⊎ (contains (offer_key browser profile) s.pending.offered ≡ true))
    → maybe_offer_restore p now browser profile s ≡ (ok none, s)
unfolding maybe_offer_restore claim
maybe_offer_restore-refused p now browser profile s (inl h) = ground arith
maybe_offer_restore-refused p now browser profile s (inr (inl h)) = ground arith
maybe_offer_restore-refused p now browser profile s (inr (inr h)) =
    rw (claim-offered browser profile s.pending h) (ground arith)

-- What happens to the shared state while the agent runs: a browser connects, the review is closed
-- or answered, or anything else that the agent does leaves another database.
pub data Event : Type 0 where
  hello : String → String → Event
  dismissed : Event
  answered : BrowserSelection → Event
  stored : Db → Event

abbrev pub step : Platform → ℤ → Event → Shared → Outcome (Option RestoreSessionBody) × Shared
step p now (hello browser profile) s = maybe_offer_restore p now browser profile s
step p now dismissed s = (ok none, record s { pending = review_dismissed s.pending })
step p now (answered selection) s =
    (ok none, record s { pending = set_selection selection s.pending })
step p now (stored db) s = (ok none, record s { db = db })

-- The offers that a browser and profile get, named by their key, over a sequence of events.
abbrev pub is_hello : String → Event → Bool
is_hello key (hello browser profile) = offer_key browser profile == key
is_hello key _ = false

abbrev pub offers_made : Outcome (Option RestoreSessionBody) → ℕ
offers_made (ok (some _)) = 1
offers_made _ = 0

unfoldable pub offers_to : String → Platform → List (ℤ × Event) → Shared → ℕ
offers_to key p [] s = 0
offers_to key p ((now, e) ∷ es) s =
    let next = step p now e s in
    (if is_hello key e then offers_made next.0 else 0) + offers_to key p es next.1

module _ (key : String) (p : Platform) where
  maybe_offer_restore-grows :
      (now : ℤ) (browser profile : String) (s : Shared)
      → contains key s.pending.offered ≡ true
      → contains key (maybe_offer_restore p now browser profile s).1.pending.offered ≡ true
  unfolding maybe_offer_restore
  maybe_offer_restore-grows now browser profile s h =
      let grows = claim-grows browser profile key s.pending h in ground arith

  step-grows :
      (now : ℤ) (e : Event) (s : Shared)
      → contains key s.pending.offered ≡ true
      → contains key (step p now e s).1.pending.offered ≡ true
  unfolding review_dismissed set_selection
  step-grows now (hello browser profile) s h = maybe_offer_restore-grows now browser profile s h
  step-grows now dismissed s h = h
  step-grows now (answered selection) s h = h
  step-grows now (stored db) s h = h

  maybe_offer_restore-claims :
      (now : ℤ) (browser profile : String) (s : Shared)
      → (offers_made (maybe_offer_restore p now browser profile s).0 ≡ 0)
        ⊎ (contains
              (offer_key browser profile)
              (maybe_offer_restore p now browser profile s).1.pending.offered
            ≡ true)
  unfolding maybe_offer_restore
  maybe_offer_restore-claims now browser profile s =
      elim (Option-cases (claim browser profile s.pending).0) [
        | inl e ↦ inl (ground arith)
        | inr (id, e) ↦ let claimed = claim-some browser profile s.pending id e in ground arith
      ]

  step-claims :
      (now : ℤ) (e : Event) (s : Shared)
      → is_hello key e ≡ true
      → (offers_made (step p now e s).0 ≡ 0)
        ⊎ (contains key (step p now e s).1.pending.offered ≡ true)
  step-claims now (hello browser profile) s h =
      rw (sym (eq_of_== (offer_key browser profile) key h))
        (maybe_offer_restore-claims now browser profile s)
  step-claims now dismissed s h = inl refl
  step-claims now (answered selection) s h = inl refl
  step-claims now (stored db) s h = inl refl

  step-offered :
      (now : ℤ) (e : Event) (s : Shared)
      → is_hello key e ≡ true
      → contains key s.pending.offered ≡ true
      → offers_made (step p now e s).0 ≡ 0
  step-offered now (hello browser profile) s h k =
      rw
        (maybe_offer_restore-refused p now browser profile s
          (inr (inr (rw (eq_of_== (offer_key browser profile) key h) k))))
        refl
  step-offered now dismissed s h k = refl
  step-offered now (answered selection) s h k = refl
  step-offered now (stored db) s h k = refl

  offers_to-offered :
      (es : List (ℤ × Event)) (s : Shared)
      → contains key s.pending.offered ≡ true
      → offers_to key p es s ≡ 0
  unfolding offers_to
  offers_to-offered [] s h = refl
  offers_to-offered ((now, e) ∷ es) s h =
      let rest = offers_to-offered es (step p now e s).1 (step-grows now e s h) in
      elim (Bool-cases (is_hello key e)) [
        | inl i ↦ rw (i, step-offered now e s i h, rest)
        | inr i ↦ rw (i, rest)
      ]

offers_made_le : (r : Outcome (Option RestoreSessionBody)) → offers_made r ≤ 1
offers_made_le r = ground arith

-- Whatever happens in whatever order, connections, reviews and changes of the database, a browser
-- and profile are made at most one offer.
pub offers_to-once :
    (key : String) (p : Platform) (es : List (ℤ × Event)) (s : Shared) → offers_to key p es s ≤ 1
unfolding offers_to
offers_to-once key p [] s = omega arith
offers_to-once key p ((now, e) ∷ es) s =
    let rest = offers_to-once key p es (step p now e s).1 in
    let one = offers_made_le (step p now e s).0 in
    elim (Bool-cases (is_hello key e)) [
      | inr i ↦ rw i (omega (arith, rest))
      | inl i ↦ elim (step-claims key p now e s i) [
        | inl none_made ↦ rw (i, none_made) (omega (arith, rest))
        | inr had ↦ rw (i, offers_to-offered key p es (step p now e s).1 had) (omega (arith, one))
      ]
    ]
