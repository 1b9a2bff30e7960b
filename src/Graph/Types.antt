-- ===== src/Graph/Types.antt =====
-- mini-coloring-mis-lower-bounds/include/graph.h and the first part of src/graph_utils.c: graphs as
-- adjacency lists. Nodes and sizes are natural numbers, so the tests for negative ones are left
-- out. The capacity of an adjacency list is left out, and `calloc` never fails.
use mini_distributed_computi.Prelude.{
  ℕ, ◌+◌, leb, ◌==◌, if◌then◌else◌, Bool, ◌||◌, List, [], ◌∷◌, ◌++◌, length, get_or, set, replicate,
  elem, max, Option, none, some,
}

-- `Graph`
pub record Graph : Type 0 where
  pub adjacency : List (List ℕ)
  pub m : ℕ
  pub max_degree : ℕ

-- `g->n`
abbrev pub size : Graph → ℕ
size g = length g.adjacency

-- `g->adjacency[v].neighbors`
abbrev pub neighbors : Graph → ℕ → List ℕ
neighbors g v = get_or g.adjacency v []

-- `g->adjacency[v].degree`
abbrev pub degree : Graph → ℕ → ℕ
degree g v = length (neighbors g v)

abbrev pub empty_graph : ℕ → Graph
empty_graph n = record { adjacency = replicate n []; m = 0; max_degree = 0 }

-- `graph_create`
unfoldable pub graph_create : ℕ → Option Graph
graph_create n = if n == 0 then none else some (empty_graph n)

abbrev pub with_neighbor : List (List ℕ) → ℕ → ℕ → List (List ℕ)
with_neighbor adjacency u v = set adjacency u (get_or adjacency u [] ++ (v ∷ []))

abbrev pub link : Graph → ℕ → ℕ → Graph
link g u v =
    let adjacency = with_neighbor (with_neighbor g.adjacency u v) v u in
    record {
      adjacency = adjacency;
      m = g.m + 1;
      max_degree =
          max (max g.max_degree (length (get_or adjacency u []))) (length (get_or adjacency v []));
    }

abbrev pub refuses : Graph → ℕ → ℕ → Bool
refuses g u v = leb (size g) u || leb (size g) v || u == v || elem v (neighbors g u)

-- `graph_add_edge`
unfoldable pub add_edge : Graph → ℕ → ℕ → Graph
add_edge g u v = if refuses g u v then g else link g u v
