-- ===== src/Mis/Maximum.antt =====
-- `graph_independence_number` of src/graph_utils.c and its callers in src/mis_extra.c: the largest
-- independent set by brute force. `current` is handed on by value: its entries from `idx` on are
-- written before they are read. A result of -1 is `none`.
use mini_distributed_computi.Prelude.{
  ℕ, zero, suc, ltb, ◌==◌, if◌then◌else◌, Bool, true, false, List, set, replicate, Option, none,
  some,
}
use mini_distributed_computi.Graph.Types.{Graph, size}
use mini_distributed_computi.Mis.Types.{Mis, independent_loop, set_size}

-- `best_size` and `best_set`
pub record Best : Type 0 where
  pub best_size : ℕ
  pub best_set : List Bool

-- a set in which each node has been decided
abbrev pub improve : Graph → List Bool → Best → Best
improve g current b =
    if independent_loop g current (size g) 0
    then (if ltb b.best_size (set_size current)
        then record { best_size = set_size current; best_set = current }
        else b)
    else b

-- `brute_force_is`, with `f` nodes left from `idx` on
unfoldable pub brute_force : Graph → ℕ → ℕ → List Bool → Best → Best
unfolding independent_loop set_size
brute_force g zero idx current b = improve g current b
brute_force g (suc f) idx current b =
    brute_force g f (suc idx) (set current idx true)
      (brute_force g f (suc idx) (set current idx false) b)

abbrev pub nothing_found : ℕ → Best
nothing_found n = record { best_size = 0; best_set = replicate n false }

-- `graph_independence_number`
unfoldable pub independence_number : Graph → Option ℕ
unfolding brute_force
independence_number g =
    if ltb 30 (size g)
    then none
    else some
        (brute_force g (size g) 0 (replicate (size g) false) (nothing_found (size g))).best_size

-- `mis_maximum_size`
unfoldable pub maximum_size : Graph → Option ℕ
unfolding independence_number
maximum_size g = if ltb 30 (size g) then none else independence_number g

abbrev pub same_size : ℕ → Option ℕ → Bool
same_size k none = false
same_size k (some n) = k == n

-- `mis_is_maximum`
unfoldable pub is_maximum : Graph → Mis → Bool
unfolding maximum_size
is_maximum g mis = same_size mis.mis_size (maximum_size g)
