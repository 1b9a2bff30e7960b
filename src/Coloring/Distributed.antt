-- ===== src/Coloring/Distributed.antt =====
-- src/color_distributed.c: `distributed_greedy_coloring`, which leaves `cfg` unread. A node is
-- colored in a round when none of its neighbors of a lower number is still to be colored.
use mini_distributed_computi.Prelude.{
  ℕ, zero, suc, ◌+◌, ◌-◌, ◌*◌, ltb, ◌==◌, if◌then◌else◌, Bool, true, false, ◌&&◌, not, List, [],
  ◌∷◌, set, get_or, replicate, Option, none, some,
}
use mini_distributed_computi.Graph.Types.{Graph, size, neighbors}
use mini_distributed_computi.Coloring.Types.{Coloring, uncolored}
use mini_distributed_computi.Coloring.Greedy.{smallest_color, paint}

-- the coloring, the nodes that are done, and the number of those that are not
pub record Progress : Type 0 where
  pub coloring : Coloring
  pub done : List Bool
  pub rem : ℕ

-- no neighbor of a lower number is to be colored
unfoldable pub can : List Bool → ℕ → List ℕ → Bool
can done v [] = true
can done v (w ∷ ws) = not (not (get_or done w true) && ltb w v) && can done v ws

abbrev pub finish : Graph → Progress → ℕ → Progress
finish g p v = record {
  coloring =
      paint p.coloring v (smallest_color (g.max_degree + 2) p.coloring.colors (neighbors g v));
  done = set p.done v true;
  rem = p.rem - 1;
}

abbrev pub visit : Graph → Progress → ℕ → Progress
visit g p v =
    if get_or p.done v true then p else (if can p.done v (neighbors g v) then finish g p v else p)

-- the nodes `v`, `v + 1`, …, of which `f` are left in the round
unfoldable pub round_loop : Graph → ℕ → ℕ → Progress → Progress
unfolding smallest_color can
round_loop g zero v p = p
round_loop g (suc f) v p = round_loop g f (suc v) (visit g p v)

-- the rounds, of which `f` are left
unfoldable pub rounds_loop : Graph → ℕ → Progress → Progress
unfolding round_loop
rounds_loop g zero p = p
rounds_loop g (suc f) p =
    let rest = rounds_loop g f (round_loop g (size g) 0 p) in if ltb 0 p.rem then rest else p

abbrev pub nothing_done : ℕ → Progress
nothing_done n = record { coloring = uncolored n; done = replicate n false; rem = n }

-- `distributed_greedy_coloring`
unfoldable pub distributed_greedy : Graph → Option Coloring
unfolding rounds_loop
distributed_greedy g =
    if size g == 0
    then none
    else some (rounds_loop g (size g * (g.max_degree + 1)) (nothing_done (size g))).coloring
