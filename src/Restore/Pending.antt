-- ===== src/Restore/Pending.antt =====
-- The one restore offer that a run of the agent may make per browser and profile: `PendingRestore`
-- of agent/crates/sr-agent/src/server.rs. A set of texts is the list of its members.
use Prim.Native.String.{◌++◌ as append}
use session_restore.Common.{
  ℕ, String, Bool, true, false, Option, none, some, List, [], ◌∷◌, String_eq, contains,
  if◌then◌else◌,
}

-- The browser half of a review decision.
pub record BrowserSelection : Type 0 where
  pub windows : List String
  pub tabs : List String
  pub declined : Bool
  pub restore_private : Bool
  pub private_tabs : List String

pub record PendingRestore : Type 0 where
  pub snapshot_id : Option ℕ
  pub offered : List String
  pub selection : Option BrowserSelection
  pub awaiting_review : Bool

-- `PendingRestore::new`
unfoldable pub new : Option ℕ → PendingRestore
new id = record { snapshot_id = id; offered = []; selection = none; awaiting_review = false }

abbrev is_some {ℓ} : {A : Type ℓ} → Option A → Bool
is_some none = false
is_some (some _) = true

-- `PendingRestore::awaiting_review`
unfoldable pub new_awaiting_review : Option ℕ → PendingRestore
unfolding new
new_awaiting_review id = record (new id) { awaiting_review = is_some id }

-- The review window was closed without a choice.
unfoldable pub review_dismissed : PendingRestore → PendingRestore
review_dismissed p = record p {
  awaiting_review = false;
  selection = some (record {
    windows = [];
    tabs = [];
    declined = true;
    restore_private = false;
    private_tabs = [];
  });
}

unfoldable pub set_selection : BrowserSelection → PendingRestore → PendingRestore
set_selection selection p = record p { selection = some selection; awaiting_review = false }

-- format!("{browser}\u{1}{profile}")
unfoldable pub offer_key : String → String → String
offer_key browser profile = append browser (append "\u{1}" profile)

abbrev claim_of : Option ℕ → String → PendingRestore → Option ℕ × PendingRestore
claim_of none key p = (none, p)
claim_of (some id) key p =
    if contains key p.offered then (none, p) else (some id, record p { offered = key ∷ p.offered })

-- Claims the offer for one browser and profile, yielding the snapshot to restore.
unfoldable pub claim : String → String → PendingRestore → Option ℕ × PendingRestore
unfolding offer_key
claim browser profile p = claim_of p.snapshot_id (offer_key browser profile) p
