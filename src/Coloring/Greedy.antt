-- ===== src/Coloring/Greedy.antt =====
-- src/color_greedy.c: the sequential greedy coloring. src/coloring_algo.c has it word by word too.
use mini_distributed_computi.Prelude.{
  ℕ, suc, ◌+◌, ltb, ◌==◌, if◌then◌else◌, Bool, true, false, List, [], ◌∷◌, take, set, replicate,
  upto, Option, none, some,
}
use mini_distributed_computi.Graph.Types.{Graph, size, neighbors, degree}
use mini_distributed_computi.Coloring.Types.{Coloring, uncolored, color}

-- `used[c] = true` for the color of one neighbor, if it is below `limit`
abbrev pub mark : ℕ → Option ℕ → List Bool → List Bool
mark limit none used = used
mark limit (some c) used = if ltb c limit then set used c true else used

unfoldable pub mark_used : ℕ → List (Option ℕ) → List ℕ → List Bool → List Bool
mark_used limit colors [] used = used
mark_used limit colors (w ∷ ws) used = mark_used limit colors ws (mark limit (color colors w) used)

-- `while (used[col]) col++`
unfoldable pub first_free : List Bool → ℕ
first_free [] = 0
first_free (true ∷ bs) = suc (first_free bs)
first_free (false ∷ bs) = 0

-- the smallest color below `k` that no node of `ws` has
unfoldable pub smallest_color : ℕ → List (Option ℕ) → List ℕ → ℕ
unfolding mark_used first_free
smallest_color k colors ws = first_free (mark_used k colors ws (replicate k false))

abbrev pub paint : Coloring → ℕ → ℕ → Coloring
paint c v col = record {
  colors = set c.colors v (some col);
  num_colors = if ltb c.num_colors (col + 1) then col + 1 else c.num_colors;
}

abbrev pub greedy_step : Graph → Coloring → ℕ → Coloring
greedy_step g c v = paint c v (smallest_color (degree g v + 2) c.colors (neighbors g v))

unfoldable pub greedy_loop : Graph → List ℕ → Coloring → Coloring
unfolding smallest_color
greedy_loop g [] c = c
greedy_loop g (v ∷ vs) c = greedy_loop g vs (greedy_step g c v)

-- `proc`: the first entries of the order that is given, or the node numbers
abbrev pub processing_order : Graph → Option (List ℕ) → List ℕ
processing_order g none = upto 0 (size g)
processing_order g (some order) = take (size g) order

-- `coloring_greedy_sequential`
unfoldable pub greedy_sequential : Graph → Option (List ℕ) → Option Coloring
unfolding greedy_loop
greedy_sequential g order =
    if size g == 0
    then none
    else some (greedy_loop g (processing_order g order) (uncolored (size g)))
