-- ===== src/Graph/Examples.antt =====
-- Graphs on which the theorems apply.
use mini_distributed_computi.Prelude.{refl, ℕ, ◌≡◌, some}
use mini_distributed_computi.Graph.Simple.{IsSimple}
use mini_distributed_computi.Graph.Built.{ring, result, Simple, result-Simple}
use mini_distributed_computi.Graph.Ports.{
  port_numbering_create, port_to_neighbor, reverse_port_at_neighbor,
}
use mini_distributed_computi.Graph.PortTrip.{reverse_port-back}
use mini_distributed_computi.Graph.Samples.{triangle, create_ring-triangle}

ring-triangle : result (ring 3) ≡ some triangle
unfolding result
ring-triangle = create_ring-triangle

two-ports : port_to_neighbor (port_numbering_create triangle) 1 1 ≡ some 2
unfolding port_to_neighbor port_numbering_create
two-ports = refl

triangle-IsSimple : IsSimple triangle
triangle-IsSimple = (result-Simple (ring 3) triangle ring-triangle).0

reverse_port-back_example :
    (q : ℕ) × (reverse_port_at_neighbor (port_numbering_create triangle) 1 1 ≡ some q)
    × (port_to_neighbor (port_numbering_create triangle) 2 q ≡ some 1)
    × (reverse_port_at_neighbor (port_numbering_create triangle) 2 q ≡ some 1)
reverse_port-back_example = reverse_port-back triangle 1 1 2 triangle-IsSimple two-ports
