-- ===== src/Relay/Ancestors.antt =====
-- The walk up the process tree ends.
use session_restore.Common.{
  ℕ, zero, suc, ◌≡◌, refl, String, false, Option, none, some, List, [], ◌∷◌, ◌==◌, ◌||◌, ℕ_eq,
  contains, Bool-cases, inl, inr, arith,
}
use session_restore.Relay.{Processes, named, climb, ancestors, ancestor_processes}

-- At most so many levels; no process stands twice in the list, and none that was seen before; each
-- is in the table under its name, and none is the process 0.
abbrev pub IsWalk : Processes → List ℕ → ℕ → List (String × ℕ) → Type 0
IsWalk table seen levels [] = Unit
IsWalk table seen zero (_ ∷ _) = ⊥
IsWalk table seen (suc levels) ((name, pid) ∷ rest) =
    ((pid == 0) ≡ false)
    × (contains pid seen ≡ false)
    × ((parent : ℕ) × (table pid ≡ some (parent, name)))
    × IsWalk table (pid ∷ seen) levels rest

named-IsWalk :
    (table : Processes) (seen : List ℕ) (levels parent : ℕ) (o : Option (ℕ × String))
    → (rest : List (String × ℕ)) → table parent ≡ o
    → ((parent == 0) || contains parent seen) ≡ false
    → IsWalk table (parent ∷ seen) levels rest
    → IsWalk table seen (suc levels) (named o parent rest)
named-IsWalk table seen levels parent none rest h e walk = tt
named-IsWalk table seen levels parent (some (up, name)) rest h e walk =
    (ground (arith, e), ground (arith, e), (up, h), walk)

climb-IsWalk :
    (table : Processes) (seen : List ℕ) (levels : ℕ) (o : Option (ℕ × String))
    → (next : List ℕ → ℕ → List (String × ℕ))
    → ((s : List ℕ) (p : ℕ) → IsWalk table s levels (next s p))
    → IsWalk table seen (suc levels) (climb table seen o next)
climb-IsWalk table seen levels none next h = tt
climb-IsWalk table seen levels (some (parent, _)) next h =
    elim (Bool-cases ((parent == 0) || contains parent seen)) [
      | inl stop ↦ rw stop tt
      | inr go ↦ rw go (
          named-IsWalk table seen levels parent (table parent) _ refl go (h (parent ∷ seen) parent))
    ]

ancestors-IsWalk :
    (table : Processes) (levels : ℕ) (seen : List ℕ) (pid : ℕ)
    → IsWalk table seen levels (ancestors table levels seen pid)
unfolding ancestors
ancestors-IsWalk table zero seen pid = tt
ancestors-IsWalk table (suc levels) seen pid =
    climb-IsWalk table seen levels (table pid) (λ s p. ancestors table levels s p)
      (λ s p. ancestors-IsWalk table levels s p)

-- The ancestors of a process are at most as many as asked for, all different and all of them
-- processes under their names, also where a process id was used again and the table has a cycle.
pub ancestor_processes-IsWalk :
    (table : Processes) (levels pid : ℕ)
    → IsWalk table [] levels (ancestor_processes table levels pid)
unfolding ancestor_processes
ancestor_processes-IsWalk table levels pid = ancestors-IsWalk table levels [] pid
