-- ===== src/Watcher/Identity/Tiers.antt =====
-- What a tier says about the application that got it.
use session_restore.Common.{
  String, ◌≡◌, ◌≢◌, ◌↔◌, true, false, Option, some, arith, ◌==◌, String_eq,
}
use session_restore.Watcher.Identity.{
  tier_a, tier_c, tier_d, AppKind, win32, uwp, TierInput, assign_tier,
}

-- What an application of a kind is started by: the AUMID of a packaged one, the path of another.
abbrev pub HasIdentity : AppKind → Option String → Option String → Type 0
HasIdentity uwp exe (some a) = Unit
HasIdentity win32 (some path) aumid = (path == "") ≡ false
HasIdentity _ _ _ = ⊥

abbrev pub IsLaunchable : TierInput → Type 0
IsLaunchable i =
    (i.never_restore ≡ false) × (i.elevated ≡ false) × HasIdentity i.kind i.exe_path i.aumid

-- An application is above tier D exactly when it is not ruled out, not elevated, and has what its
-- kind is started by.
pub assign_tier-IsLaunchable : (i : TierInput) → (assign_tier i ≢ tier_d) ↔ IsLaunchable i
unfolding assign_tier
assign_tier-IsLaunchable i = ground arith

-- Tier A is exactly a launchable desktop application whose command line is known and unredacted.
pub assign_tier-tier_a :
    (i : TierInput)
    → (assign_tier i ≡ tier_a) ↔ (
        IsLaunchable i
        × (i.kind ≡ win32)
        × (i.has_command_line ≡ true)
        × (i.command_line_redacted ≡ false))
unfolding assign_tier
assign_tier-tier_a i = ground arith

-- Tier C is exactly a launchable application with documents that no usable command line covers.
pub assign_tier-tier_c :
    (i : TierInput)
    → (assign_tier i ≡ tier_c)
      ↔ (IsLaunchable i × (i.has_documents ≡ true) × (assign_tier i ≢ tier_a))
unfolding assign_tier
assign_tier-tier_c i = ground arith
