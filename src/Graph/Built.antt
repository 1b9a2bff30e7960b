-- ===== src/Graph/Built.antt =====
-- Every builder returns a simple graph of the size that was asked for.
use mini_distributed_computi.Prelude.{
  ℕ, zero, suc, ◌+◌, ◌-◌, ◌*◌, ◌%◌, ◌≡◌, ◌∙◌, subst, ltb, leb, ◌==◌, if◌then◌else◌, Bool, true,
  false, ◌&&◌, ◌||◌, not, List, [], ◌∷◌, length-replicate, Option, none, some, ℤ, Bool-cases, inl,
  inr, pos_part, get_or, minus_one,
}
use mini_distributed_computi.Graph.Types.{Graph, size, degree, empty_graph, graph_create, add_edge}
use mini_distributed_computi.Graph.Build.{
  ring_loop, create_ring, star_loop, complete_loop, create_complete, tree_loop, create_tree,
  bipartite_loop, create_bipartite, grid_cell, grid_row, grid_loop, create_grid, lcg_next, shuffle,
  stubs, pair_stubs, create_random_regular, attempts_loop, bounded_loop, create_bounded_degree,
}
use mini_distributed_computi.Graph.Simple.{
  IsSimple, add_edge-IsSimple, empty_graph-IsSimple, size-add_edge,
}

-- simple, with `n` nodes
abbrev pub Simple : ℕ → Graph → Type 0
Simple n g = IsSimple g × (size g ≡ n)

Simple-add_edge : (n u v : ℕ) (g : Graph) → Simple n g → Simple n (add_edge g u v)
Simple-add_edge n u v g (simple, e) = (add_edge-IsSimple g u v simple, size-add_edge g u v ∙ e)

Simple-empty_graph : (n : ℕ) → Simple n (empty_graph n)
Simple-empty_graph n = (empty_graph-IsSimple n, length-replicate n [])

-- a conditional edge
Simple-if :
    (n : ℕ) (b : Bool) (g h : Graph) → Simple n g → Simple n h → Simple n (if b then g else h)
Simple-if n true g h p q = p
Simple-if n false g h p q = q

Simple-ring_loop : (n k f i : ℕ) (g : Graph) → Simple n g → Simple n (ring_loop k f i g)
unfolding ring_loop
Simple-ring_loop n k zero i g p = p
Simple-ring_loop n k (suc f) i g p =
    Simple-ring_loop n k f (suc i) _ (Simple-add_edge n i ((i + 1) % k) g p)

Simple-star_loop : (n i f j : ℕ) (g : Graph) → Simple n g → Simple n (star_loop i f j g)
unfolding star_loop
Simple-star_loop n i zero j g p = p
Simple-star_loop n i (suc f) j g p = Simple-star_loop n i f (suc j) _ (Simple-add_edge n i j g p)

Simple-complete_loop : (n f i : ℕ) (g : Graph) → Simple n g → Simple n (complete_loop f i g)
unfolding complete_loop
Simple-complete_loop n zero i g p = p
Simple-complete_loop n (suc f) i g p =
    Simple-complete_loop n f (suc i) _ (Simple-star_loop n i f (suc i) g p)

Simple-tree_loop :
    (n : ℕ) (parent : List ℤ) (k f i : ℕ) (g : Graph)
    → Simple n g
    → Simple n (tree_loop parent k f i g)
unfolding tree_loop
Simple-tree_loop n parent k zero i g p = p
Simple-tree_loop n parent k (suc f) i g p =
    Simple-tree_loop n parent k f (suc i) _
      (Simple-if n _ _ _ (Simple-add_edge n i (pos_part (get_or parent i minus_one)) g p) p)

Simple-bipartite_loop :
    (n a b f i : ℕ) (g : Graph) → Simple n g → Simple n (bipartite_loop a b f i g)
unfolding bipartite_loop
Simple-bipartite_loop n a b zero i g p = p
Simple-bipartite_loop n a b (suc f) i g p =
    Simple-bipartite_loop n a b f (suc i) _ (Simple-star_loop n i b a g p)

Simple-grid_cell :
    (n rows cols r c : ℕ) (g : Graph) → Simple n g → Simple n (grid_cell rows cols r c g)
Simple-grid_cell n rows cols r c g p =
    let east =
      Simple-if n (ltb (c + 1) cols) _ g (Simple-add_edge n (r * cols + c) (r * cols + (c + 1)) g p)
        p in
    Simple-if n (ltb (r + 1) rows) _ _
      (Simple-add_edge n (r * cols + c) ((r + 1) * cols + c) _ east) east

Simple-grid_row :
    (n rows cols r f c : ℕ) (g : Graph) → Simple n g → Simple n (grid_row rows cols r f c g)
unfolding grid_row
Simple-grid_row n rows cols r zero c g p = p
Simple-grid_row n rows cols r (suc f) c g p =
    Simple-grid_row n rows cols r f (suc c) _ (Simple-grid_cell n rows cols r c g p)

Simple-grid_loop :
    (n rows cols f r : ℕ) (g : Graph) → Simple n g → Simple n (grid_loop rows cols f r g)
unfolding grid_loop
Simple-grid_loop n rows cols zero r g p = p
Simple-grid_loop n rows cols (suc f) r g p =
    Simple-grid_loop n rows cols f (suc r) _ (Simple-grid_row n rows cols r cols 0 g p)

Simple-pair_stubs : (n : ℕ) (xs : List ℕ) (g : Graph) → Simple n g → Simple n (pair_stubs xs g)
unfolding pair_stubs
Simple-pair_stubs n [] g p = p
Simple-pair_stubs n (u ∷ []) g p = p
Simple-pair_stubs n (u ∷ (v ∷ rest)) g p = Simple-pair_stubs n rest _ (Simple-add_edge n u v g p)

Simple-attempts_loop :
    (n k d i f : ℕ) (g : Graph) (state : ℕ)
    → Simple n g
    → Simple n (attempts_loop k d i f g state).0
unfolding attempts_loop
Simple-attempts_loop n k d i zero g state p = p
Simple-attempts_loop n k d i (suc f) g state p = elim (Bool-cases (ltb (degree g i) d)) [
  | inl more ↦ rw more (
      Simple-attempts_loop n k d i f _ (lcg_next state)
        (Simple-if n _ _ g (Simple-add_edge n i (lcg_next state % k) g p) p))
  | inr full ↦ rw full p
]

Simple-bounded_loop :
    (n k d f i : ℕ) (g : Graph) (state : ℕ) → Simple n g → Simple n (bounded_loop k d f i g state)
unfolding bounded_loop
Simple-bounded_loop n k d zero i g state p = p
Simple-bounded_loop n k d (suc f) i g state p =
    Simple-bounded_loop n k d f (suc i) _ _ (Simple-attempts_loop n k d i (2 * d) g state p)

-- the calls of the builders, and what each returns
pub data Call : Type 0 where
  create : ℕ → Call
  ring : ℕ → Call
  complete : ℕ → Call
  tree : List ℤ → ℕ → Call
  bipartite : ℕ → ℕ → Call
  grid : ℕ → ℕ → Call
  random_regular : ℕ → ℕ → ℕ → Call
  bounded_degree : ℕ → ℕ → ℕ → Call

unfoldable pub result : Call → Option Graph
result (create n) = graph_create n
result (ring n) = create_ring n
result (complete n) = create_complete n
result (tree parent n) = create_tree parent n
result (bipartite a b) = create_bipartite a b
result (grid rows cols) = create_grid rows cols
result (random_regular n d seed) = create_random_regular n d seed
result (bounded_degree n d seed) = create_bounded_degree n d seed

abbrev pub nodes : Call → ℕ
nodes (create n) = n
nodes (ring n) = n
nodes (complete n) = n
nodes (tree parent n) = n
nodes (bipartite a b) = a + b
nodes (grid rows cols) = rows * cols
nodes (random_regular n d seed) = n
nodes (bounded_degree n d seed) = n

abbrev Good : ℕ → Option Graph → Type 0
Good n none = Unit
Good n (some g) = Simple n g

Good-if : (n : ℕ) (b : Bool) (o : Option Graph) → Good n o → Good n (if b then none else o)
Good-if n true o p = tt
Good-if n false o p = p

Good-create : (n : ℕ) → Good n (graph_create n)
unfolding graph_create
Good-create n = Good-if n (n == 0) (some (empty_graph n)) (Simple-empty_graph n)

result-Good : (c : Call) → Good (nodes c) (result c)
unfolding result create_ring create_complete create_tree create_bipartite create_grid
    create_random_regular create_bounded_degree
result-Good (create n) = Good-create n
result-Good (ring n) =
    Good-if n (ltb n 3) _ (Simple-ring_loop n n n 0 (empty_graph n) (Simple-empty_graph n))
result-Good (complete n) =
    Good-if n (ltb n 1) _ (Simple-complete_loop n n 0 (empty_graph n) (Simple-empty_graph n))
result-Good (tree parent n) =
    Good-if n (ltb n 1) _
      (Simple-tree_loop n parent n (n - 1) 1 (empty_graph n) (Simple-empty_graph n))
result-Good (bipartite a b) =
    Good-if (a + b) (ltb a 1 || ltb b 1) _
      (Simple-bipartite_loop (a + b) a b a 0 (empty_graph (a + b)) (Simple-empty_graph (a + b)))
result-Good (grid rows cols) = Good-if (rows * cols) (ltb rows 1 || ltb cols 1) _ (
    Simple-grid_loop (rows * cols) rows cols rows 0 (empty_graph (rows * cols))
      (Simple-empty_graph (rows * cols)))
result-Good (random_regular n d seed) = Good-if n (ltb n 1 || leb n d) _ (
    Good-if n (not (d % 2 == 0) && not (n % 2 == 0)) _ (elim (Bool-cases (d == 0)) [
      | inl empty ↦ rw empty (Good-create n)
      | inr some_degree ↦ rw some_degree (
          Simple-pair_stubs n (shuffle (n * d - 1) seed (stubs d n 0)) (empty_graph n)
            (Simple-empty_graph n))
    ]))
result-Good (bounded_degree n d seed) =
    Good-if n (ltb n 1 || ltb d 1) _
      (Simple-bounded_loop n n d n 0 (empty_graph n) seed (Simple-empty_graph n))

pub result-Simple : (c : Call) (g : Graph) → result c ≡ some g → Simple (nodes c) g
result-Simple c g e = subst (Good (nodes c)) e (result-Good c)
