-- ===== src/Server/Push/Once.antt =====
-- The deferred offers are sent once.
use mathlib.Core.Path.{subst}
use session_restore.Common.{
  ℕ, ◌≡◌, refl, sym, ap, ◌∙◌, String, true, ◌||◌, none, List, [], ◌∷◌, arith, All, any, String_eq,
  ==-refl, ◌⊎◌, inl, inr, Option-cases, Bool-cases, if_both, if◌then◌else◌,
}
use session_restore.Common.Int.{ℤ}
use session_restore.Store.Crypto.{Platform}
use session_restore.Restore.Pending.{PendingRestore, offer_key, claim}
use session_restore.Restore.Offer.{Shared, is_declined, maybe_offer_restore}
use session_restore.Server.Registry.{Connection}
use session_restore.Server.Dispatch.{Reply}
use session_restore.Server.Push.{offer_of, then_offers, offer_each, offer_to_connected}

-- No offer is left for the browser and profile.
abbrev IsSpent : Connection → PendingRestore → Type 0
IsSpent c pending =
    (pending.awaiting_review || is_declined pending.selection ≡ true)
    ⊎ ((claim c.browser c.profile pending).0 ≡ none)

spent_refused :
    (p : Platform) (now : ℤ) (c : Connection) (s : Shared)
    → IsSpent c s.pending
    → (offer_of c.id (maybe_offer_restore p now c.browser c.profile s).0 ≡ [])
      × ((maybe_offer_restore p now c.browser c.profile s).1 ≡ s)
unfolding maybe_offer_restore claim
spent_refused p now c s (inl h) = ground arith
spent_refused p now c s (inr h) = ground arith

claim-spent :
    (c d : Connection) (pending : PendingRestore)
    → (claim c.browser c.profile pending).0 ≡ none
    → (claim c.browser c.profile (claim d.browser d.profile pending).1).0 ≡ none
unfolding claim any
claim-spent c d pending h = ground arith

claim_twice :
    (c : Connection) (pending : PendingRestore)
    → (claim c.browser c.profile (claim c.browser c.profile pending).1).0 ≡ none
unfolding claim any
claim_twice c pending = ground (arith, ==-refl (offer_key c.browser c.profile))

claim_undecided :
    (d : Connection) (pending : PendingRestore)
    → (claim d.browser d.profile pending).1.awaiting_review
        || is_declined (claim d.browser d.profile pending).1.selection
      ≡ pending.awaiting_review || is_declined pending.selection
unfolding claim
claim_undecided d pending = ground arith

abbrev decided : Connection → PendingRestore → PendingRestore
decided d pending =
    if pending.awaiting_review || is_declined pending.selection
    then pending
    else (claim d.browser d.profile pending).1

-- The part of the state that decides on offers.
maybe_offer_restore-pending :
    (p : Platform) (now : ℤ) (c : Connection) (s : Shared)
    → (maybe_offer_restore p now c.browser c.profile s).1.pending ≡ decided c s.pending
unfolding maybe_offer_restore
maybe_offer_restore-pending p now c s =
    elim (Option-cases (claim c.browser c.profile s.pending).0) [
      | inl refused ↦ ground (arith, refused)
      | inr (id, claimed) ↦ ground (arith, claimed)
    ]

decided-IsSpent :
    (c d : Connection) (pending : PendingRestore)
    → IsSpent c pending
    → IsSpent c (decided d pending)
decided-IsSpent c d pending h = if_both (IsSpent c) _ _ _ h (claimed h)
  where
    claimed : IsSpent c pending → IsSpent c (claim d.browser d.profile pending).1
    claimed (inl stopped) = inl (claim_undecided d pending ∙ stopped)
    claimed (inr spent) = inr (claim-spent c d pending spent)

decided_self : (c : Connection) (pending : PendingRestore) → IsSpent c (decided c pending)
decided_self c pending =
    elim (Bool-cases (pending.awaiting_review || is_declined pending.selection)) [
      | inl stopped ↦
          let same : pending ≡ decided c pending = ground (arith, stopped) in
          subst (IsSpent c) same (inl stopped)
      | inr undecided ↦
          let next : (claim c.browser c.profile pending).1 ≡ decided c pending =
            ground (arith, undecided) in
          subst (IsSpent c) next (inr (claim_twice c pending))
    ]

then_offers-state :
    (os : List (ℕ × Reply)) (rest : List (ℕ × Reply) × Shared) → (then_offers os rest).1 ≡ rest.1
then_offers-state [] rest = refl
then_offers-state (o ∷ os) rest = refl

offer_each-state :
    (p : Platform) (now : ℤ) (c : Connection) (cs : List Connection) (s : Shared)
    → (offer_each p now (c ∷ cs) s).1
      ≡ (offer_each p now cs (maybe_offer_restore p now c.browser c.profile s).1).1
unfolding offer_each
offer_each-state p now c cs s =
    then_offers-state (offer_of c.id (maybe_offer_restore p now c.browser c.profile s).0) _

maybe_offer_restore-connections :
    (p : Platform) (now : ℤ) (browser profile : String) (s : Shared)
    → (maybe_offer_restore p now browser profile s).1.connections ≡ s.connections
unfolding maybe_offer_restore
maybe_offer_restore-connections p now browser profile s = ground arith

offer_each-connections :
    (p : Platform) (now : ℤ) (cs : List Connection) (s : Shared)
    → (offer_each p now cs s).1.connections ≡ s.connections
unfolding offer_each
offer_each-connections p now [] s = refl
offer_each-connections p now (c ∷ cs) s =
    ap (λ (t : Shared). t.connections) (offer_each-state p now c cs s)
    ∙ offer_each-connections p now cs (maybe_offer_restore p now c.browser c.profile s).1
    ∙ maybe_offer_restore-connections p now c.browser c.profile s

offer_each-IsSpent :
    (p : Platform) (now : ℤ) (d : Connection) (cs : List Connection) (s : Shared)
    → IsSpent d s.pending
    → IsSpent d (offer_each p now cs s).1.pending
unfolding offer_each
offer_each-IsSpent p now d [] s h = h
offer_each-IsSpent p now d (c ∷ cs) s h =
    subst (λ (t : Shared). IsSpent d t.pending) (sym (offer_each-state p now c cs s))
      (offer_each-IsSpent p now d cs (maybe_offer_restore p now c.browser c.profile s).1 (
        subst (IsSpent d) (sym (maybe_offer_restore-pending p now c s))
          (decided-IsSpent d c s.pending h)))

offer_each_spends :
    (p : Platform) (now : ℤ) (cs : List Connection) (s : Shared)
    → All (λ c. IsSpent c (offer_each p now cs s).1.pending) cs
unfolding offer_each
offer_each_spends p now [] s = tt
offer_each_spends p now (c ∷ cs) s =
    let next = (maybe_offer_restore p now c.browser c.profile s).1 in
    subst (λ (t : Shared). All (λ d. IsSpent d t.pending) (c ∷ cs))
      (sym (offer_each-state p now c cs s))
      (
        offer_each-IsSpent p now c cs next (
            subst (IsSpent c) (sym (maybe_offer_restore-pending p now c s))
              (decided_self c s.pending)),
        offer_each_spends p now cs next,
      )

offer_each_spent :
    (p : Platform) (now : ℤ) (cs : List Connection) (s : Shared)
    → All (λ c. IsSpent c s.pending) cs
    → offer_each p now cs s ≡ ([], s)
unfolding offer_each
offer_each_spent p now [] s h = refl
offer_each_spent p now (c ∷ cs) s (h, hs) =
    let (no_offer, same) = spent_refused p now c s h in
    ap
      (λ os.
        then_offers os (offer_each p now cs (maybe_offer_restore p now c.browser c.profile s).1))
      no_offer
    ∙ ap (offer_each p now cs) same
    ∙ offer_each_spent p now cs s hs

-- The deferred offers are made once: right after `offer_to_connected` has run, another run of it
-- sends nothing and changes nothing, also for a browser whose offer could not be built.
pub offer_to_connected_twice :
    (p : Platform) (now later : ℤ) (s : Shared)
    → offer_to_connected p later (offer_to_connected p now s).1
      ≡ ([], (offer_to_connected p now s).1)
unfolding offer_to_connected
offer_to_connected_twice p now later s =
    let after = (offer_each p now s.connections s).1 in
    ap (λ cs. offer_each p later cs after) (offer_each-connections p now s.connections s)
    ∙ offer_each_spent p later s.connections after (offer_each_spends p now s.connections s)
