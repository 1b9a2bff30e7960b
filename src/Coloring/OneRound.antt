-- ===== src/Coloring/OneRound.antt =====
-- One round of the distributed greedy coloring is the sequential one.
use mini_distributed_computi.Prelude.{ℕ, ◌+◌, ◌≤◌, ◌<◌, ◌≡◌, true, false, get_or, length}
use mini_distributed_computi.Graph.Types.{Graph}
use mini_distributed_computi.Coloring.Distributed.{Progress}

-- The nodes below `v` are done, and no others.
pub record DoneBelow (n v : ℕ) (p : Progress) : Type 0 where
  pub size_done : length p.done ≡ n
  pub done_low : (w : ℕ) → w < v → get_or p.done w true ≡ true
  pub to_do : (w : ℕ) → v ≤ w → w < n → get_or p.done w true ≡ false
  pub left : p.rem + v ≡ n
