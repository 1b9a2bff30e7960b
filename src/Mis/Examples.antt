-- ===== src/Mis/Examples.antt =====
-- Sets on which the theorems apply.
use mini_distributed_computi.Prelude.{
  pos, false, Bool, Option, ◌≤◌, arith, ℕ, ◌≡◌, ◌↔◌, ◌<◌, refl, some, none, true, false, length, [],
  ◌∷◌,
}
use mini_distributed_computi.Mis.Maximum.{independence_number}
use mini_distributed_computi.Mis.Largest.{IsLargest, independence_number-IsLargest}
use mini_distributed_computi.Graph.Types.{Graph, size, add_edge}
use mini_distributed_computi.Graph.Build.{create_ring}
use mini_distributed_computi.Mis.RingSet.{ring_deterministic}
use mini_distributed_computi.Graph.Samples.{path, path-IsSimple, path-nodes}
use mini_distributed_computi.Mis.Types.{Mis, verify}
use mini_distributed_computi.Mis.Greedy.{greedy_sequential}
use mini_distributed_computi.Mis.Check.{Independent, Dominated, verify_iff}
use mini_distributed_computi.Mis.Sequential.{IsMis, greedy_sequential-IsMis}

abbrev ends : Mis
ends = record {
  in_mis = true ∷ false ∷ true ∷ [];
  dominator = none ∷ some 0 ∷ none ∷ [];
  mis_size = 2;
}

greedy_sequential-ends : greedy_sequential path none ≡ some ends
unfolding greedy_sequential add_edge
greedy_sequential-ends = refl

verify-ends : verify path ends ≡ true
unfolding verify add_edge
verify-ends = refl

verify_iff_example : (verify path ends ≡ true) ↔ (
    (size path ≡ length ends.in_mis)
    × Independent path ends.in_mis
    × ((u : ℕ) → u < size path → Dominated path ends.in_mis u))
verify_iff_example = verify_iff path ends

greedy_sequential-IsMis_example :
    (mis : Mis) × (greedy_sequential path none ≡ some mis) × IsMis path mis
greedy_sequential-IsMis_example = greedy_sequential-IsMis path none path-IsSimple path-nodes tt

path-small : size path ≤ 30
unfolding add_edge
path-small = omega arith

independence_number-path : independence_number path ≡ some 2
unfolding independence_number add_edge
independence_number-path = refl

independence_number-IsLargest_example :
    (k : ℕ) × (independence_number path ≡ some k) × IsLargest path k
independence_number-IsLargest_example = independence_number-IsLargest path path-small

-- only the node of the smallest identifier joins
abbrev sorted_ring : Mis
sorted_ring = record {
  in_mis = true ∷ false ∷ false ∷ false ∷ false ∷ [];
  dominator = none ∷ some 0 ∷ none ∷ none ∷ some 0 ∷ [];
  mis_size = 1;
}

ring_deterministic-sorted :
    ring_deterministic 5 (pos 1 ∷ pos 2 ∷ pos 3 ∷ pos 4 ∷ pos 5 ∷ []) ≡ some sorted_ring
unfolding ring_deterministic
ring_deterministic-sorted = refl

abbrev verified_on : Option Graph → Mis → Bool
verified_on none mis = true
verified_on (some g) mis = verify g mis

sorted_ring-refused : verified_on (create_ring 5) sorted_ring ≡ false
unfolding verify create_ring add_edge
sorted_ring-refused = refl
