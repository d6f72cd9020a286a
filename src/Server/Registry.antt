-- ===== src/Server/Registry.antt =====
-- The browsers that are connected: `Connection`, `ConnectionGuard` and `connected_browsers` of
-- agent/crates/sr-agent/src/server.rs. A connection is written to by its id.
use text.Mathlib.Text.{is_lt}
use Prim.Native.String
use session_restore.Common.{
  ℕ, String, not, List, [], ◌∷◌, ◌++◌, map, ◌==◌, ℕ_eq, String_eq, select, if◌then◌else◌,
}

pub record Connection : Type 0 where
  pub id : ℕ
  pub browser : String
  pub profile : String

-- conns.push(..)
abbrev pub register : Connection → List Connection → List Connection
register c conns = conns ++ (c ∷ [])

-- `ConnectionGuard::drop`: conns.retain(|c| c.id != self.id)
unfoldable pub unregister : ℕ → List Connection → List Connection
unfolding select
unregister id conns = select (λ c. not (c.id == id)) conns

-- `sort`
unfoldable pub insert_text : String → List String → List String
insert_text u [] = u ∷ []
insert_text u (v ∷ vs) =
    let rest = insert_text u vs in if is_lt (String.compare v u) then v ∷ rest else u ∷ v ∷ vs

unfoldable pub sort : List String → List String
unfolding insert_text
sort [] = []
sort (u ∷ us) = insert_text u (sort us)

-- `dedup`: drops what equals the text before it.
unfoldable pub dedup_after : String → List String → List String
dedup_after u [] = []
dedup_after u (v ∷ vs) = let rest = dedup_after v vs in if v == u then rest else v ∷ rest

unfoldable pub dedup : List String → List String
unfolding dedup_after
dedup [] = []
dedup (u ∷ us) = u ∷ dedup_after u us

-- The browsers whose extensions are connected right now.
unfoldable pub connected_browsers : List Connection → List String
unfolding sort dedup
connected_browsers conns = dedup (sort (map (λ c. c.browser) conns))
