-- ===== src/Graph/Ports.antt =====
-- The port numberings of src/graph_utils.c. A port of -1 and INVALID_NODE are `none`; `degree` of
-- the source is the length of a row of `port_map`.
use mini_distributed_computi.Prelude.{
  ℕ, suc, ◌==◌, if◌then◌else◌, List, [], ◌∷◌, get_or, get_elem?, Option, none, some,
}
use mini_distributed_computi.Graph.Types.{Graph, neighbors}

-- `PortNumbered`
pub record PortNumbered : Type 0 where
  pub port_map : List (List ℕ)
  pub reverse_port : List (List (Option ℕ))

-- the first port `q`, `q + 1`, … of `ws` that leads to `v`
unfoldable pub find_port : List ℕ → ℕ → ℕ → Option ℕ
find_port [] v q = none
find_port (w ∷ ws) v q = let rest = find_port ws v (suc q) in if w == v then some q else rest

-- the reverse ports of node `v`
unfoldable pub reverse_ports : Graph → ℕ → List ℕ → List (Option ℕ)
unfolding find_port
reverse_ports g v [] = []
reverse_ports g v (w ∷ ws) = find_port (neighbors g w) v 0 ∷ reverse_ports g v ws

-- the nodes `v`, `v + 1`, …, whose adjacency lists are given
unfoldable pub ports_loop : Graph → List (List ℕ) → ℕ → List (List (Option ℕ))
unfolding reverse_ports
ports_loop g [] v = []
ports_loop g (ws ∷ wss) v = reverse_ports g v ws ∷ ports_loop g wss (suc v)

-- `port_numbering_create`
unfoldable pub port_numbering_create : Graph → PortNumbered
unfolding ports_loop
port_numbering_create g = record {
  port_map = g.adjacency;
  reverse_port = ports_loop g g.adjacency 0;
}

-- `port_to_neighbor`
unfoldable pub port_to_neighbor : PortNumbered → ℕ → ℕ → Option ℕ
port_to_neighbor pn v port = get_elem? (get_or pn.port_map v []) port

abbrev pub known : Option (Option ℕ) → Option ℕ
known none = none
known (some o) = o

-- `reverse_port_at_neighbor`
unfoldable pub reverse_port_at_neighbor : PortNumbered → ℕ → ℕ → Option ℕ
reverse_port_at_neighbor pn v port = known (get_elem? (get_or pn.reverse_port v []) port)
