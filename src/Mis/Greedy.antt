-- ===== src/Mis/Greedy.antt =====
-- src/mis_algo.c and src/mis_deterministic.c: the greedy maximal independent sets.
use mini_distributed_computi.Prelude.{
  ℕ, zero, suc, ◌+◌, ◌-◌, ◌==◌, if◌then◌else◌, true, List, [], ◌∷◌, get_or, set, upto, Option, none,
  some,
}
use mini_distributed_computi.Graph.Types.{Graph, size, neighbors}
use mini_distributed_computi.Graph.Build.{shuffle}
use mini_distributed_computi.Coloring.Types.{Coloring, color, has_color}
use mini_distributed_computi.Coloring.Greedy.{processing_order}
use mini_distributed_computi.Mis.Types.{Mis, empty_mis, some_member}

abbrev pub dominator_of : Option ℕ → ℕ → ℕ → List (Option ℕ) → List (Option ℕ)
dominator_of none v w doms = set doms w (some v)
dominator_of (some x) v w doms = doms

-- the nodes of `ws` that have no dominator get `v`
unfoldable pub dominate : ℕ → List ℕ → List (Option ℕ) → List (Option ℕ)
dominate v [] doms = doms
dominate v (w ∷ ws) doms = dominate v ws (dominator_of (get_or doms w none) v w doms)

abbrev pub join : Graph → Mis → ℕ → Mis
join g mis v = record {
  in_mis = set mis.in_mis v true;
  dominator = dominate v (neighbors g v) mis.dominator;
  mis_size = mis.mis_size + 1;
}

-- one node, in the greedy loops
abbrev pub consider : Graph → Mis → ℕ → Mis
consider g mis v = if some_member mis.in_mis (neighbors g v) then mis else join g mis v

unfoldable pub greedy_loop : Graph → List ℕ → Mis → Mis
unfolding dominate some_member
greedy_loop g [] mis = mis
greedy_loop g (v ∷ vs) mis = greedy_loop g vs (consider g mis v)

-- `mis_greedy_sequential`
unfoldable pub greedy_sequential : Graph → Option (List ℕ) → Option Mis
unfolding greedy_loop
greedy_sequential g order =
    if size g == 0
    then none
    else some (greedy_loop g (processing_order g order) (empty_mis (size g)))

-- `mis_greedy_random_order`
unfoldable pub greedy_random_order : Graph → ℕ → Option Mis
unfolding greedy_sequential
greedy_random_order g seed =
    greedy_sequential g (some (shuffle (size g - 1) seed (upto 0 (size g))))

-- `mis_bipartite`, which leaves the bipartition unread
unfoldable pub mis_bipartite : Graph → Coloring → Option Mis
unfolding greedy_sequential
mis_bipartite g bipartition = greedy_sequential g none

-- the nodes `v`, `v + 1`, … of one color, of which `f` are left
unfoldable pub class_loop : Graph → List (Option ℕ) → ℕ → ℕ → ℕ → Mis → Mis
unfolding dominate some_member
class_loop g colors x zero v mis = mis
class_loop g colors x (suc f) v mis =
    class_loop g colors x f (suc v) (if has_color (color colors v) x then consider g mis v else mis)

-- the colors `x`, `x + 1`, …, of which `f` are left
unfoldable pub classes_loop : Graph → List (Option ℕ) → ℕ → ℕ → Mis → Mis
unfolding class_loop
classes_loop g colors zero x mis = mis
classes_loop g colors (suc f) x mis =
    classes_loop g colors f (suc x) (class_loop g colors x (size g) 0 mis)

-- `mis_linial_deterministic`, after its call of `cole_vishkin_coloring`
unfoldable pub by_color_classes : Graph → Coloring → Option Mis
unfolding classes_loop
by_color_classes g c =
    if size g == 0 then none else some (classes_loop g c.colors c.num_colors 0 (empty_mis (size g)))
