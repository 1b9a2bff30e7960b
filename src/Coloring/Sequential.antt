-- ===== src/Coloring/Sequential.antt =====
-- `coloring_greedy_sequential` as a whole.
use mini_distributed_computi.Prelude.{
  ℕ, ◌<◌, ◌≡◌, ◌≢◌, ◌↔◌, refl, ◌==◌, true, false, List, take, replicate, length-replicate,
  get_or-replicate, elem, elem-upto, upto-elem, Option, none, some, arith, inl,
}
use mini_distributed_computi.Graph.Types.{Graph, size}
use mini_distributed_computi.Graph.Simple.{IsSimple}
use mini_distributed_computi.Coloring.Types.{Coloring, uncolored, color}
use mini_distributed_computi.Coloring.Greedy.{greedy_loop, processing_order, greedy_sequential}
use mini_distributed_computi.Coloring.Proper.{IsPartial, IsColored, greedy_loop-IsPartial}

-- an order that has each node among its first entries, as many as there are nodes
abbrev pub IsOrder : Graph → Option (List ℕ) → Type 0
IsOrder g none = Unit
IsOrder g (some order) = (v : ℕ) → (elem v (take (size g) order) ≡ true) ↔ (v < size g)

pub processing_order-IsOrder :
    (g : Graph) (order : Option (List ℕ))
    → IsOrder g order
    → (v : ℕ) → (elem v (processing_order g order) ≡ true) ↔ (v < size g)
processing_order-IsOrder g none ok v = (
  λ h. let (_, lt) = upto-elem v 0 (size g) h in omega arith,
  λ lt. elem-upto v 0 (size g) (omega arith) (omega arith),
)
processing_order-IsOrder g (some order) ok v = ok v

pub uncolored-IsPartial : (g : Graph) → IsPartial g (uncolored (size g))
uncolored-IsPartial g = record {
  same_size = length-replicate (size g) none;
  proper = λ u v x edge h. absurd (blank u x h);
  low = λ v x h. absurd (blank v x h);
  few = omega arith;
}
  where
    blank : (v x : ℕ) → color (replicate (size g) none) v ≢ some x
    blank v x = rw (get_or-replicate {A = Option ℕ} (size g) none v) (λ h. absurd (cc h))

-- all nodes have a color, as `IsPartial` says of those that have one
pub record IsComplete (g : Graph) (c : Coloring) : Type 0 where
  pub partial : IsPartial g c
  pub all : (v : ℕ) → v < size g → IsColored c.colors v

-- The greedy coloring of a simple graph with nodes, in any order of all of them, is returned, and
-- is complete and proper: no node's color exceeds its degree, and `num_colors` is above all the
-- colors and at most one more than the graph's maximal degree.
pub greedy_sequential-IsComplete :
    (g : Graph) (order : Option (List ℕ))
    → IsSimple g
    → 0 < size g
    → IsOrder g order
    → (c : Coloring) × (greedy_sequential g order ≡ some c) × IsComplete g c
unfolding greedy_sequential
greedy_sequential-IsComplete g order simple some_node ok =
    let covers = processing_order-IsOrder g order ok in
    let (part, all) =
      greedy_loop-IsPartial g (processing_order g order) (uncolored (size g)) simple
        (λ v h. (covers v).0 h) (uncolored-IsPartial g) in
    let nonempty : (size g == 0) ≡ false = ground arith in
    (
      greedy_loop g (processing_order g order) (uncolored (size g)),
      rw nonempty refl,
      record { partial = part; all = λ v lt. all v (inl ((covers v).1 lt)) },
    )
