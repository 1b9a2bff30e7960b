-- ===== src/Coloring/Reduce.antt =====
-- src/color_cole_vishkin.c: `coloring_reduce_by_one`, and the loop of `cole_vishkin_coloring` that
-- calls it. The coloring that enters the loop comes from `cole_vishkin_reduce`, whose rounds compute
-- with doubles and are not modelled.
use mini_distributed_computi.Prelude.{
  ℕ, zero, suc, ◌+◌, ◌-◌, ltb, if◌then◌else◌, List, [], ◌∷◌, set, Option, none, some,
}
use mini_distributed_computi.Graph.Types.{Graph, size, neighbors}
use mini_distributed_computi.Coloring.Types.{Coloring, color, has_color, num_colors_used}
use mini_distributed_computi.Coloring.Greedy.{smallest_color}

-- `reco`: the nodes of color `rm`, among `v`, `v + 1`, …, of which `f` are left
unfoldable pub of_color : List (Option ℕ) → ℕ → ℕ → ℕ → List ℕ
of_color colors rm zero v = []
of_color colors rm (suc f) v =
    if has_color (color colors v) rm
    then v ∷ of_color colors rm f (suc v)
    else of_color colors rm f (suc v)

-- the nodes of `vs` lose their color
unfoldable pub clear : List ℕ → List (Option ℕ) → List (Option ℕ)
clear [] colors = colors
clear (v ∷ vs) colors = clear vs (set colors v none)

abbrev pub new_color : ℕ → List (Option ℕ) → List ℕ → ℕ
new_color rm colors ws = let c = smallest_color rm colors ws in if ltb c rm then c else 0

-- the nodes of `vs` get the smallest color below `rm` that is free, or 0
unfoldable pub recolor : Graph → ℕ → List ℕ → List (Option ℕ) → List (Option ℕ)
unfolding smallest_color
recolor g rm [] colors = colors
recolor g rm (v ∷ vs) colors =
    recolor g rm vs (set colors v (some (new_color rm colors (neighbors g v))))

-- `coloring_reduce_by_one`
unfoldable pub reduce_by_one : Graph → Coloring → ℕ → Coloring
unfolding of_color clear recolor num_colors_used
reduce_by_one g c rm =
    let reco = of_color c.colors rm (size g) 0 in
    let colors = recolor g rm reco (clear reco c.colors) in
    record {
      colors = colors;
      num_colors = num_colors_used (record { colors = colors; num_colors = c.num_colors });
    }

-- the loop of `cole_vishkin_coloring`, at most `f` times; `cur` is `cur_c`
unfoldable pub reduce_loop : Graph → ℕ → Coloring → ℕ → Coloring
unfolding reduce_by_one
reduce_loop g zero c cur = c
reduce_loop g (suc f) c cur =
    let next = reduce_by_one g c (cur - 1) in
    let rest = reduce_loop g f next (num_colors_used next) in
    if ltb (g.max_degree + 1) cur then rest else c
