-- ===== src/Graph/Build.antt =====
-- The builders of src/graph_utils.c. `lcg_next` is a 64-bit generator, and a shuffle swaps entries
-- of an array from its end.
use mini_distributed_computi.Prelude.{
  ℕ, zero, suc, ◌+◌, ◌-◌, ◌*◌, ◌%◌, ◌^◌, ltb, leb, ◌==◌, if◌then◌else◌, ◌&&◌, ◌||◌, not, List, [],
  ◌∷◌, ◌++◌, get_or, set, replicate, Option, none, some, ℤ, minus_one, nonneg, pos_part,
}
use mini_distributed_computi.Graph.Types.{Graph, degree, empty_graph, graph_create, add_edge}

-- the edges from node `i` on, of which `f` are left
unfoldable pub ring_loop : ℕ → ℕ → ℕ → Graph → Graph
ring_loop n zero i g = g
ring_loop n (suc f) i g = ring_loop n f (suc i) (add_edge g i ((i + 1) % n))

-- `graph_create_ring`
unfoldable pub create_ring : ℕ → Option Graph
unfolding ring_loop
create_ring n = if ltb n 3 then none else some (ring_loop n n 0 (empty_graph n))

-- edges from `i` to each of `j`, `j + 1`, …, of which `f` are left
unfoldable pub star_loop : ℕ → ℕ → ℕ → Graph → Graph
star_loop i zero j g = g
star_loop i (suc f) j g = star_loop i f (suc j) (add_edge g i j)

unfoldable pub complete_loop : ℕ → ℕ → Graph → Graph
unfolding star_loop
complete_loop zero i g = g
complete_loop (suc f) i g = complete_loop f (suc i) (star_loop i f (suc i) g)

-- `graph_create_complete`: node `i` has `n - 1 - i` nodes after it
unfoldable pub create_complete : ℕ → Option Graph
unfolding complete_loop
create_complete n = if ltb n 1 then none else some (complete_loop n 0 (empty_graph n))

unfoldable pub tree_loop : List ℤ → ℕ → ℕ → ℕ → Graph → Graph
tree_loop parent n zero i g = g
tree_loop parent n (suc f) i g =
    let p = get_or parent i minus_one in
    tree_loop parent n f (suc i)
      (if nonneg p && ltb (pos_part p) n then add_edge g i (pos_part p) else g)

-- `graph_create_tree`, of a parent array of `n` entries
unfoldable pub create_tree : List ℤ → ℕ → Option Graph
unfolding tree_loop
create_tree parent n = if ltb n 1 then none else some (tree_loop parent n (n - 1) 1 (empty_graph n))

unfoldable pub bipartite_loop : ℕ → ℕ → ℕ → ℕ → Graph → Graph
unfolding star_loop
bipartite_loop a b zero i g = g
bipartite_loop a b (suc f) i g = bipartite_loop a b f (suc i) (star_loop i b a g)

-- `graph_create_bipartite`
unfoldable pub create_bipartite : ℕ → ℕ → Option Graph
unfolding bipartite_loop
create_bipartite a b =
    if ltb a 1 || ltb b 1 then none else some (bipartite_loop a b a 0 (empty_graph (a + b)))

abbrev pub grid_cell : ℕ → ℕ → ℕ → ℕ → Graph → Graph
grid_cell rows cols r c g =
    let east = if ltb (c + 1) cols then add_edge g (r * cols + c) (r * cols + (c + 1)) else g in
    if ltb (r + 1) rows then add_edge east (r * cols + c) ((r + 1) * cols + c) else east

unfoldable pub grid_row : ℕ → ℕ → ℕ → ℕ → ℕ → Graph → Graph
grid_row rows cols r zero c g = g
grid_row rows cols r (suc f) c g = grid_row rows cols r f (suc c) (grid_cell rows cols r c g)

unfoldable pub grid_loop : ℕ → ℕ → ℕ → ℕ → Graph → Graph
unfolding grid_row
grid_loop rows cols zero r g = g
grid_loop rows cols (suc f) r g = grid_loop rows cols f (suc r) (grid_row rows cols r cols 0 g)

-- `graph_create_grid`
unfoldable pub create_grid : ℕ → ℕ → Option Graph
unfolding grid_loop
create_grid rows cols =
    if ltb rows 1 || ltb cols 1
    then none
    else some (grid_loop rows cols rows 0 (empty_graph (rows * cols)))

-- `lcg_next`: the new state, which is also the number drawn
unfoldable pub lcg_next : ℕ → ℕ
lcg_next state = (state * 6364136223846793005 + 1442695040888963407) % 2 ^ 64

abbrev pub swap : List ℕ → ℕ → ℕ → List ℕ
swap xs i j = set (set xs i (get_or xs j 0)) j (get_or xs i 0)

-- the shuffle, from index `i` down to 1
unfoldable pub shuffle : ℕ → ℕ → List ℕ → List ℕ
shuffle zero state xs = xs
shuffle (suc k) state xs =
    shuffle k (lcg_next state) (swap xs (suc k) (lcg_next state % (suc k + 1)))

-- `d` stubs for each of the nodes `i`, `i + 1`, …
unfoldable pub stubs : ℕ → ℕ → ℕ → List ℕ
stubs d zero i = []
stubs d (suc f) i = replicate d i ++ stubs d f (suc i)

unfoldable pub pair_stubs : List ℕ → Graph → Graph
pair_stubs [] g = g
pair_stubs (u ∷ []) g = g
pair_stubs (u ∷ (v ∷ rest)) g = pair_stubs rest (add_edge g u v)

-- `graph_create_random_regular`
unfoldable pub create_random_regular : ℕ → ℕ → ℕ → Option Graph
unfolding shuffle stubs pair_stubs graph_create
create_random_regular n d seed =
    if ltb n 1 || leb n d
    then none
    else if not (d % 2 == 0) && not (n % 2 == 0)
    then none
    else if d == 0
    then graph_create n
    else some (pair_stubs (shuffle (n * d - 1) seed (stubs d n 0)) (empty_graph n))

-- up to `f` attempts to give node `i` more edges: the graph and the state of the generator
unfoldable pub attempts_loop : ℕ → ℕ → ℕ → ℕ → Graph → ℕ → Graph × ℕ
attempts_loop n d i zero g state = (g, state)
attempts_loop n d i (suc f) g state =
    let j = lcg_next state % n in
    let rest =
      attempts_loop n d i f (if not (j == i) && ltb (degree g j) d then add_edge g i j else g)
        (lcg_next state) in
    if ltb (degree g i) d then rest else (g, state)

unfoldable pub bounded_loop : ℕ → ℕ → ℕ → ℕ → Graph → ℕ → Graph
unfolding attempts_loop
bounded_loop n d zero i g state = g
bounded_loop n d (suc f) i g state =
    let (h, state') = attempts_loop n d i (2 * d) g state in bounded_loop n d f (suc i) h state'

-- `graph_create_bounded_degree`
unfoldable pub create_bounded_degree : ℕ → ℕ → ℕ → Option Graph
unfolding bounded_loop
create_bounded_degree n d seed =
    if ltb n 1 || ltb d 1 then none else some (bounded_loop n d n 0 (empty_graph n) seed)
