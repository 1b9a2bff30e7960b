-- ===== src/Graph/PortTrip.antt =====
-- Following a port and its reverse port leads back.
use mini_distributed_computi.Prelude.{
  ℕ, zero, suc, ◌+◌, ◌<◌, ◌≡◌, refl, sym, ◌∙◌, ap, subst, ◌==◌, ==_iff, true, false, List, [], ◌∷◌,
  get_or, get_elem?, elem, some, arith, Bool-cases, inl, inr, ℕ_discrete, length, dec_lt,
  get_or-out,
}
use mini_distributed_computi.Graph.Types.{Graph, size, neighbors}
use mini_distributed_computi.Graph.Simple.{IsSimple, no_repeats}
use mini_distributed_computi.Graph.Ports.{
  find_port, reverse_ports, ports_loop, port_numbering_create, port_to_neighbor, known,
  reverse_port_at_neighbor,
}

-- where `find_port` finds a node, that node stands
find_port-some :
    (ws : List ℕ) (v q p : ℕ)
    → find_port ws v q ≡ some p
    → (i : ℕ) × (p ≡ q + i) × (get_elem? ws i ≡ some v)
unfolding find_port
find_port-some [] v q p = λ h. absurd (cc h)
find_port-some (w ∷ ws) v q p = elim (Bool-cases (w == v)) [
  | inl same ↦ rw same (λ h.
      let e : q ≡ p = cc h in let e' : w ≡ v = (==_iff w v).0 same in (0, omega arith, ap some e'))
  | inr other ↦
      rw other (λ h. let (i, e, at) = find_port-some ws v (suc q) p h in (suc i, omega arith, at))
]

get_elem?-elem : (ws : List ℕ) (i v : ℕ) → get_elem? ws i ≡ some v → elem v ws ≡ true
get_elem?-elem [] i v h = absurd (cc h)
get_elem?-elem (w ∷ ws) zero v h = let e : w ≡ v = cc h in ground arith
get_elem?-elem (w ∷ ws) (suc i) v h = let rest = get_elem?-elem ws i v h in ground arith

no_repeats-head : (w : ℕ) (ws : List ℕ) → no_repeats (w ∷ ws) ≡ true → elem w ws ≡ false
no_repeats-head w ws distinct = ground arith

-- in a list without repeats, a node is found where it stands
find_port-at :
    (ws : List ℕ) (v q i : ℕ)
    → no_repeats ws ≡ true
    → get_elem? ws i ≡ some v
    → find_port ws v q ≡ some (q + i)
unfolding find_port
find_port-at [] v q i distinct h = absurd (cc h)
find_port-at (w ∷ ws) v q zero distinct h =
    let e : w ≡ v = cc h in rw ((==_iff w v).1 e) (ap some (omega arith))
find_port-at (w ∷ ws) v q (suc i) distinct h =
    let there = get_elem?-elem ws i v h in
    let other : (w == v) ≡ false = elim (ℕ_discrete w v) [
      | yes e ↦
          absurd (cc (subst (λ k. elem k ws ≡ true) (sym e) there, no_repeats-head w ws distinct))
      | no ne ↦ ground arith
    ] in
    rw other (find_port-at ws v (suc q) i (ground arith) h ∙ ap some (omega arith))

find_port-there : (ws : List ℕ) (v q : ℕ) → elem v ws ≡ true → (p : ℕ) × (find_port ws v q ≡ some p)
unfolding find_port
find_port-there [] v q h = absurd (ground arith)
find_port-there (w ∷ ws) v q h = elim (Bool-cases (w == v)) [
  | inl same ↦ (q, rw same refl)
  | inr other ↦ let (p, found) = find_port-there ws v (suc q) (ground arith) in (p, rw other found)
]

reverse_ports-at :
    (g : Graph) (v : ℕ) (ws : List ℕ) (i w : ℕ)
    → get_elem? ws i ≡ some w
    → get_elem? (reverse_ports g v ws) i ≡ some (find_port (neighbors g w) v 0)
unfolding reverse_ports
reverse_ports-at g v [] i w h = absurd (cc h)
reverse_ports-at g v (x ∷ ws) zero w h =
    let e : x ≡ w = cc h in ap (λ k. some (find_port (neighbors g k) v 0)) e
reverse_ports-at g v (x ∷ ws) (suc i) w h = reverse_ports-at g v ws i w h

ports_loop-at :
    (g : Graph) (wss : List (List ℕ)) (v i : ℕ)
    → i < length wss
    → get_or (ports_loop g wss v) i [] ≡ reverse_ports g (v + i) (get_or wss i [])
unfolding ports_loop
ports_loop-at g [] v i lt = absurd (omega arith)
ports_loop-at g (ws ∷ wss) v zero lt = ap (λ k. reverse_ports g k ws) (omega arith)
ports_loop-at g (ws ∷ wss) v (suc i) lt =
    ports_loop-at g wss (suc v) i (omega arith)
    ∙ ap (λ k. reverse_ports g k (get_or wss i [])) (omega arith)

reverse_port-at :
    (g : Graph) (v p w : ℕ)
    → get_elem? (neighbors g v) p ≡ some w
    → reverse_port_at_neighbor (port_numbering_create g) v p ≡ find_port (neighbors g w) v 0
unfolding reverse_port_at_neighbor port_numbering_create
reverse_port-at g v p w h = elim (dec_lt v (size g)) [
  | yes lt ↦
      let row : get_or (ports_loop g g.adjacency 0) v [] ≡ reverse_ports g v (neighbors g v) =
        ports_loop-at g g.adjacency 0 v lt
        ∙ ap (λ k. reverse_ports g k (neighbors g v)) (omega arith) in
      ap (λ ps. known (get_elem? ps p)) row ∙ ap known (reverse_ports-at g v (neighbors g v) p w h)
  | no ge ↦ absurd (
      nowhere (subst (λ ws. get_elem? ws p ≡ some w) (get_or-out g.adjacency v [] (omega arith)) h))
]
  where
    nowhere : get_elem? [] p ≡ some w → ⊥
    nowhere e = cc e

-- In the port numbering of a simple graph, a port of `v` that leads to `w` has a reverse port at
-- `w`, which leads back to `v`, and whose reverse port is the first port.
pub reverse_port-back :
    (g : Graph) (v p w : ℕ)
    → IsSimple g
    → port_to_neighbor (port_numbering_create g) v p ≡ some w
    → (q : ℕ) × (reverse_port_at_neighbor (port_numbering_create g) v p ≡ some q)
      × (port_to_neighbor (port_numbering_create g) w q ≡ some v)
      × (reverse_port_at_neighbor (port_numbering_create g) w q ≡ some p)
unfolding port_to_neighbor port_numbering_create
reverse_port-back g v p w simple h =
    let edge = simple.both_ways v w (get_elem?-elem (neighbors g v) p w h) in
    let (q, found) = find_port-there (neighbors g w) v 0 edge in
    let (i, e, at) = find_port-some (neighbors g w) v 0 q found in
    let back : get_elem? (neighbors g w) q ≡ some v =
      subst (λ k. get_elem? (neighbors g w) k ≡ some v) (omega arith) at in
    (
      q,
      reverse_port-at g v p w h ∙ found,
      back,
      reverse_port-at g w q v back
          ∙ find_port-at (neighbors g v) w 0 p (simple.listed_once v) h
          ∙ ap some (omega arith),
    )
