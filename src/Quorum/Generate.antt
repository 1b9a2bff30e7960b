-- ===== src/Quorum/Generate.antt =====
-- `quorum_generate_all` of src/quorum_system.c. The array of quorums and `num_quorums` are the list
-- of those found so far. A result of `none` is a run that writes past the end of the array, which
-- the source does not guard.
use mini_distributed_computi.Prelude.{
  ℕ, zero, suc, ◌+◌, ◌-◌, ltb, if◌then◌else◌, List, [], ◌∷◌, ◌++◌, length, Option, none, some,
  ◌>>=◌,
}
use mini_distributed_computi.Quorum.System.{QuorumSystem}

-- `MAX_QUORUMS`
abbrev pub max_quorums : ℕ
max_quorums = 1024

-- the write to `quorums[num_quorums]`
unfoldable pub add_quorum : List (List ℕ) → List ℕ → Option (List (List ℕ))
add_quorum found q = if ltb (length found) max_quorums then some (found ++ (q ∷ [])) else none

-- `generate_combinations`: `k` nodes of the rest of the universe are still to be added to `current`
unfoldable pub combinations : ℕ → List ℕ → List ℕ → List (List ℕ) → Option (List (List ℕ))
unfolding add_quorum
combinations zero universe current found = add_quorum found current
combinations (suc k) [] current found = some found
combinations (suc k) (x ∷ universe) current found = do
  with_x ← combinations k universe (current ++ (x ∷ [])) found
  combinations (suc k) universe current with_x

-- the loop over the sizes from `k`, of which `rest` are left
unfoldable pub all_sizes : List ℕ → ℕ → ℕ → List (List ℕ) → Option (List (List ℕ))
unfolding combinations
all_sizes universe k zero found = some found
all_sizes universe k (suc rest) found = do
  of_size ← combinations k universe [] found
  all_sizes universe (suc k) rest of_size

abbrev pub with_quorums : QuorumSystem → List (List ℕ) → QuorumSystem
with_quorums qs found = record qs { quorums = found }

-- `quorum_generate_all`, which returns the number of quorums
unfoldable pub generate_all : QuorumSystem → Option QuorumSystem
unfolding all_sizes
generate_all qs = do
  found ← all_sizes qs.universe qs.quorum_size (length qs.universe + 1 - qs.quorum_size) []
  some (with_quorums qs found)
