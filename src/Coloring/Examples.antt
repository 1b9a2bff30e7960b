-- ===== src/Coloring/Examples.antt =====
-- Colorings on which the theorems apply.
use mini_distributed_computi.Prelude.{
  ◌≡◌, sym, ◌+◌, ◌≤◌, ◌<◌, ℕ, suc, zero, refl, some, none, true, [], ◌∷◌, arith,
}
use mini_distributed_computi.Graph.Types.{size, add_edge}
use mini_distributed_computi.Graph.Samples.{path, path-IsSimple, path-nodes}
use mini_distributed_computi.Coloring.Types.{Coloring, is_proper, color}
use mini_distributed_computi.Coloring.Greedy.{greedy_sequential}
use mini_distributed_computi.Coloring.Check.{is_proper_iff}
use mini_distributed_computi.Coloring.Sequential.{IsComplete, greedy_sequential-IsComplete}
use mini_distributed_computi.Coloring.Reduce.{reduce_loop}
use mini_distributed_computi.Coloring.Removal.{IsColoring}
use mini_distributed_computi.Coloring.Reduced.{reduce_loop-IsColoring}

abbrev two_colors : Coloring
two_colors = record { colors = some 0 ∷ some 1 ∷ some 0 ∷ []; num_colors = 2 }

abbrev wide : Coloring
wide = record { colors = some 4 ∷ some 1 ∷ some 3 ∷ []; num_colors = 5 }

greedy_sequential-path : greedy_sequential path none ≡ some two_colors
unfolding greedy_sequential add_edge
greedy_sequential-path = refl

reduce_loop-path : reduce_loop path 5 wide 5 ≡ two_colors
unfolding reduce_loop add_edge
reduce_loop-path = refl

greedy_sequential-IsComplete_example :
    (c : Coloring) × (greedy_sequential path none ≡ some c) × IsComplete path c
greedy_sequential-IsComplete_example =
    greedy_sequential-IsComplete path none path-IsSimple path-nodes tt

wide-is_proper : is_proper path wide ≡ true
unfolding is_proper add_edge
wide-is_proper = refl

wide-low : (v x : ℕ) → color wide.colors v ≡ some x → x < 5
wide-low zero x h = let e : 4 ≡ x = cc h in omega arith
wide-low (suc zero) x h = let e : 1 ≡ x = cc h in omega arith
wide-low (suc (suc zero)) x h = let e : 3 ≡ x = cc h in omega arith
wide-low (suc (suc (suc v))) x h = absurd (cc h)

wide-colored : (v : ℕ) → v < size path → (x : ℕ) × (color wide.colors v ≡ some x)
unfolding add_edge
wide-colored zero lt = (4, refl)
wide-colored (suc zero) lt = (1, refl)
wide-colored (suc (suc zero)) lt = (3, refl)
wide-colored (suc (suc (suc v))) lt = absurd (omega arith)

wide-IsColoring : IsColoring path 5 wide.colors
wide-IsColoring =
    let (same, proper) = (is_proper_iff path wide).0 wide-is_proper in
    record {
      below = record { same_size = sym same; proper = proper; low = wide-low };
      all = wide-colored;
    }

reduce_loop-IsColoring_example :
    (d : Coloring) × ((f : ℕ) → 5 ≤ f → reduce_loop path f wide 5 ≡ d)
    × IsColoring path (path.max_degree + 1) d.colors
reduce_loop-IsColoring_example = reduce_loop-IsColoring path wide path-IsSimple wide-IsColoring
