-- ===== src/Graph/Samples.antt =====
-- A path of three nodes, and a triangle.
use mini_distributed_computi.Prelude.{◌<◌, ◌≡◌, refl, some, arith, [], ◌∷◌}
use mini_distributed_computi.Graph.Types.{Graph, size, empty_graph, add_edge}
use mini_distributed_computi.Graph.Build.{create_ring}
use mini_distributed_computi.Graph.Simple.{IsSimple, empty_graph-IsSimple, add_edge-IsSimple}

abbrev pub edge : Graph
edge = add_edge (empty_graph 3) 0 1

abbrev pub path : Graph
path = add_edge edge 1 2

pub edge-IsSimple : IsSimple edge
edge-IsSimple = add_edge-IsSimple (empty_graph 3) 0 1 (empty_graph-IsSimple 3)

pub path-IsSimple : IsSimple path
path-IsSimple = add_edge-IsSimple edge 1 2 edge-IsSimple

path-size : size path ≡ 3
unfolding add_edge
path-size = refl

pub path-nodes : 0 < size path
path-nodes = omega (arith, path-size)

abbrev pub triangle : Graph
triangle = record {
  adjacency = (1 ∷ 2 ∷ []) ∷ (0 ∷ 2 ∷ []) ∷ (1 ∷ 0 ∷ []) ∷ [];
  m = 3;
  max_degree = 2;
}

pub create_ring-triangle : create_ring 3 ≡ some triangle
unfolding create_ring add_edge
create_ring-triangle = refl
