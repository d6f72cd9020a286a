-- ===== src/Watcher/Identity.antt =====
-- How faithfully an application can be brought back: agent/crates/sr-agent/src/watcher/identity.rs.
use session_restore.Common.{
  String, Bool, true, false, not, ◌&&◌, ◌||◌, Option, none, some, ◌==◌, String_eq, if◌then◌else◌,
}
pub mod Tiers

pub data Tier : Type 0 where
  tier_a tier_b tier_c tier_d : Tier

pub data AppKind : Type 0 where
  win32 uwp unknown : AppKind

pub record TierInput : Type 0 where
  pub kind : AppKind
  pub exe_path : Option String
  pub aumid : Option String
  pub has_command_line : Bool
  pub command_line_redacted : Bool
  pub elevated : Bool
  pub never_restore : Bool
  pub has_documents : Bool

-- The arms of the `match` on the kind.
unfoldable pub tier_of_kind : AppKind → TierInput → Tier
tier_of_kind uwp i = elim i.aumid [
  | none ↦ tier_d
  | some _ ↦ if i.has_documents then tier_c else tier_b
]
tier_of_kind unknown i = tier_d
tier_of_kind win32 i = elim i.exe_path [
  | none ↦ tier_d
  | some path ↦
      if path == ""
      then tier_d
      else if i.has_command_line && not i.command_line_redacted
      then tier_a
      else if i.has_documents
      then tier_c
      else tier_b
]

unfoldable pub assign_tier : TierInput → Tier
unfolding tier_of_kind
assign_tier i = if i.never_restore || i.elevated then tier_d else tier_of_kind i.kind i
