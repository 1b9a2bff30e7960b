-- ===== src/Quorum/System.antt =====
-- src/quorum_system.c. The nodes of a quorum are a list, whose length is the quorum's size, and so
-- are the universe and the quorums of a system.
use mini_distributed_computi.Prelude.{
  ℕ, zero, suc, ◌+◌, ◌-◌, ◌*◌, ◌/◌, leb, ◌==◌, if◌then◌else◌, Bool, true, false, ◌&&◌, ◌||◌, not,
  List, [], ◌∷◌, length, ℤ, minus_one,
}

-- `quorum_system_t`
pub record QuorumSystem : Type 0 where
  pub universe : List ℕ
  pub quorums : List (List ℕ)
  pub quorum_size : ℕ

unfoldable pub nodes_from : ℕ → ℕ → List ℕ
nodes_from i zero = []
nodes_from i (suc n) = i ∷ nodes_from (suc i) n

-- `quorum_system_init`
unfoldable pub quorum_system_init : ℕ → QuorumSystem
unfolding nodes_from
quorum_system_init n = record { universe = nodes_from 0 n; quorums = []; quorum_size = n / 2 + 1 }

-- `quorum_contains`, and the search of the other functions for one node
unfoldable pub contains : List ℕ → ℕ → Bool
contains [] node = false
contains (x ∷ xs) node = x == node || contains xs node

unfoldable pub all_in : List ℕ → List ℕ → Bool
unfolding contains
all_in universe [] = true
all_in universe (x ∷ xs) = contains universe x && all_in universe xs

-- `quorum_is_valid`
unfoldable pub is_valid : QuorumSystem → List ℕ → Bool
unfolding all_in
is_valid qs q = not (leb (length q) (length qs.universe / 2)) && all_in qs.universe q

-- `quorum_intersection_size`: the nodes that it writes into `intersection_out`
unfoldable pub intersection : List ℕ → List ℕ → List ℕ
unfolding contains
intersection [] b = []
intersection (x ∷ xs) b = if contains b x then x ∷ intersection xs b else intersection xs b

abbrev pub intersection_size : List ℕ → List ℕ → ℕ
intersection_size a b = length (intersection a b)

unfoldable pub meet : List ℕ → List ℕ → Bool
unfolding contains
meet [] b = false
meet (x ∷ xs) b = contains b x || meet xs b

unfoldable pub meets_all : List ℕ → List (List ℕ) → Bool
unfolding meet
meets_all q [] = true
meets_all q (r ∷ rs) = meet q r && meets_all q rs

-- `quorum_intersection_holds`
unfoldable pub pairwise_meet : List (List ℕ) → Bool
unfolding meets_all
pairwise_meet [] = true
pairwise_meet (q ∷ qs) = meets_all q qs && pairwise_meet qs

unfoldable pub intersection_holds : QuorumSystem → Bool
unfolding pairwise_meet
intersection_holds qs = pairwise_meet qs.quorums

-- `quorum_max_fault_tolerance`
unfoldable pub max_fault_tolerance : QuorumSystem → ℕ
max_fault_tolerance qs = (length qs.universe - 1) / 2

unfoldable pub count_true : List Bool → ℕ
count_true [] = 0
count_true (b ∷ bs) = (if b then 1 else 0) + count_true bs

-- `quorum_achieved`
unfoldable pub achieved : List Bool → QuorumSystem → Bool
unfolding count_true
achieved responders qs = leb qs.quorum_size (count_true responders)

unfoldable pub count_containing : List (List ℕ) → ℕ → ℕ
unfolding contains
count_containing [] node = 0
count_containing (q ∷ qs) node = (if contains q node then 1 else 0) + count_containing qs node

-- `quorum_count_containing_node`
unfoldable pub count_containing_node : QuorumSystem → ℕ → ℕ
unfolding count_containing
count_containing_node qs node = count_containing qs.quorums node

-- `quorum_min_size_without_node`
unfoldable pub min_size_without_node : QuorumSystem → ℕ → ℤ
min_size_without_node qs node = minus_one

-- `byzantine_quorum_size`
unfoldable pub byzantine_quorum_size : ℕ → ℕ
byzantine_quorum_size f = 2 * f + 1

-- `byzantine_total_nodes`
unfoldable pub byzantine_total_nodes : ℕ → ℕ
byzantine_total_nodes f = 3 * f + 1

-- `byzantine_quorum_intersection_check`
unfoldable pub byzantine_quorum_intersection_check : ℕ → List ℕ → List ℕ → Bool
unfolding intersection
byzantine_quorum_intersection_check total a b = leb ((total - 1) / 3 + 1) (intersection_size a b)
