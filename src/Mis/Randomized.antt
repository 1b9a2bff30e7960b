-- ===== src/Mis/Randomized.antt =====
-- Luby's algorithm as a whole: its rounds are enough, and the set is independent and maximal.
use mini_distributed_computi.Prelude.{
  ℕ, ◌<◌, ◌≡◌, ◌≢◌, Bool, true, false, List, length, get_or, elem, Option, none, some,
}
use mini_distributed_computi.Graph.Types.{Graph, size, neighbors}
use mini_distributed_computi.Mis.Types.{set_size, Mis, member, verify}
use mini_distributed_computi.Mis.Check.{Independent, Dominated}
use mini_distributed_computi.Mis.Luby.{Round, fill_dominators}

-- the arrays between two rounds
abbrev between : List Bool → List Bool → Round
between active in_mis = record { active = active; in_mis = in_mis; joined = 0 }

-- The set is settled: independent, of the graph's size, each node dominated, and counted.
record Settled (g : Graph) (set_ : List Bool) (n : ℕ) : Type 0 where
  size_right : length set_ ≡ size g
  independent : Independent g set_
  all : (u : ℕ) → u < size g → Dominated g set_ u
  counted : n ≡ set_size set_

-- `mis_verify` accepts the set, `mis_size` counts it, and exactly the nodes outside it have a
-- dominator, which is a neighbor in the set.
pub record IsLuby (g : Graph) (mis : Mis) : Type 0 where
  pub verified : verify g mis ≡ true
  pub counted : mis.mis_size ≡ set_size mis.in_mis
  pub dominator_sound :
      (u x : ℕ)
      → u < size g
      → get_or mis.dominator u none ≡ some x
      → (member mis.in_mis u ≡ false)
        × (member mis.in_mis x ≡ true)
        × (elem x (neighbors g u) ≡ true)
  pub dominator_known :
      (u : ℕ) → u < size g → member mis.in_mis u ≡ false → get_or mis.dominator u none ≢ none

module _ (g : Graph) (set_ : List Bool) (n : ℕ) (done : Settled g set_ n) where
  abbrev dominators : List (Option ℕ)
  dominators = fill_dominators g set_ (size g) 0
