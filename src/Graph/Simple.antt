-- ===== src/Graph/Simple.antt =====
-- Simple graphs: what every graph that is built from `graph_add_edge` is.
use mini_distributed_computi.Prelude.{
  ℕ, zero, suc, ◌+◌, ◌*◌, ◌≤◌, ◌<◌, ◌≡◌, ◌≢◌, ◌⊎◌, inl, inr, refl, sym, ◌∙◌, ap, subst, ◌==◌,
  if◌then◌else◌, true, false, ◌&&◌, ◌||◌, List, [], ◌∷◌, Bool, not, ◌++◌, length, length-set,
  length-append, get_or, get_or-set_self, get_or-set_ne, get_or-replicate, set, replicate, elem,
  elem-append, arith, Bool-cases, ℕ_discrete, ==_iff,
}
use mini_distributed_computi.Graph.Types.{
  Graph, size, neighbors, degree, empty_graph, with_neighbor, link, refuses, add_edge,
}

abbrev pub total_length : List (List ℕ) → ℕ
total_length [] = 0
total_length (xs ∷ xss) = length xs + total_length xss

-- no node stands twice in the list
abbrev pub no_repeats : List ℕ → Bool
no_repeats [] = true
no_repeats (x ∷ xs) = not (elem x xs) && no_repeats xs

no_repeats-append :
    (xs : List ℕ) (y : ℕ)
    → no_repeats xs ≡ true
    → elem y xs ≡ false
    → no_repeats (xs ++ (y ∷ [])) ≡ true
no_repeats-append [] y distinct new = refl
no_repeats-append (x ∷ xs) y distinct new =
    let rest = no_repeats-append xs y (ground arith) (ground arith) in
    rw (elem-append x xs (y ∷ [])) (ground arith)

-- Neighbors are nodes of the graph, mutual, each listed once, and not the node itself;
-- `max_degree` bounds the degrees, and `m` counts the edges.
pub record IsSimple (g : Graph) : Type 0 where
  pub in_range : (u v : ℕ) → elem v (neighbors g u) ≡ true → v < size g
  pub both_ways : (u v : ℕ) → elem v (neighbors g u) ≡ true → elem u (neighbors g v) ≡ true
  pub no_loop : (u : ℕ) → elem u (neighbors g u) ≡ false
  pub listed_once : (u : ℕ) → no_repeats (neighbors g u) ≡ true
  pub degree_le : (u : ℕ) → degree g u ≤ g.max_degree
  pub handshake : total_length g.adjacency ≡ 2 * g.m

total_length-set :
    (xss : List (List ℕ)) (i : ℕ) (xs : List ℕ)
    → i < length xss
    → total_length (set xss i xs) + length (get_or xss i []) ≡ total_length xss + length xs
total_length-set [] i xs lt = absurd (omega arith)
total_length-set (ys ∷ xss) zero xs lt = omega arith
total_length-set (ys ∷ xss) (suc i) xs lt = omega (arith, total_length-set xss i xs (omega arith))

total_length-with_neighbor :
    (xss : List (List ℕ)) (u v : ℕ)
    → u < length xss
    → total_length (with_neighbor xss u v) ≡ suc (total_length xss)
total_length-with_neighbor xss u v lt = omega (
  arith,
  total_length-set xss u (get_or xss u [] ++ (v ∷ [])) lt,
  length-append (get_or xss u []) (v ∷ []),
)

-- the neighbors of `w` after `v` was added to those of `u`
get_or-with_neighbor :
    (xss : List (List ℕ)) (u v w : ℕ)
    → u < length xss
    → get_or (with_neighbor xss u v) w []
      ≡ (if u == w then get_or xss w [] ++ (v ∷ []) else get_or xss w [])
get_or-with_neighbor xss u v w lt = elim (Bool-cases (u == w)) [
  | inl e ↦
      rw (e, sym ((==_iff u w).0 e)) (get_or-set_self xss u (get_or xss u [] ++ (v ∷ [])) [] lt)
  | inr ne ↦ rw ne (get_or-set_ne xss u w (get_or xss u [] ++ (v ∷ [])) [] (λ e. ground arith))
]

elem-with_neighbor :
    (xss : List (List ℕ)) (u v w x : ℕ)
    → u < length xss
    → elem x (get_or (with_neighbor xss u v) w [])
      ≡ (elem x (get_or xss w []) || (u == w && x == v))
elem-with_neighbor xss u v w x lt = elim (Bool-cases (u == w)) [
  | inl e ↦
      rw (get_or-with_neighbor xss u v w lt, e, elem-append x (get_or xss w []) (v ∷ []))
        (ground arith)
  | inr ne ↦ rw (get_or-with_neighbor xss u v w lt, ne) (ground arith)
]

module _ (g : Graph) (simple : IsSimple g) (u v : ℕ) (low : u < size g) (low' : v < size g)
    (apart : u ≢ v) (new : elem v (neighbors g u) ≡ false) where
  abbrev once : List (List ℕ)
  once = with_neighbor g.adjacency u v

  once-size : length once ≡ size g
  once-size = length-set g.adjacency u (neighbors g u ++ (v ∷ []))

  -- `x` is a neighbor of `w` in the new graph
  elem-link :
      (w x : ℕ)
      → elem x (neighbors (link g u v) w)
        ≡ ((elem x (neighbors g w) || (u == w && x == v)) || (v == w && x == u))
  elem-link w x =
      elem-with_neighbor once v u w x (omega (arith, once-size))
      ∙ ap (λ b. b || (v == w && x == u)) (elem-with_neighbor g.adjacency u v w x low)

  pub size-link : size (link g u v) ≡ size g
  size-link = length-set once v (get_or once v [] ++ (u ∷ [])) ∙ once-size

  -- the other nodes keep their neighbors
  neighbors-link : (w : ℕ) → u ≢ w → v ≢ w → neighbors (link g u v) w ≡ neighbors g w
  neighbors-link w ne ne' =
      get_or-set_ne once v w (get_or once v [] ++ (u ∷ [])) [] ne'
      ∙ get_or-set_ne g.adjacency u w (neighbors g u ++ (v ∷ [])) [] ne

  -- one of the two writes of `link`
  no_repeats-with_neighbor :
      (xss : List (List ℕ)) (a b w : ℕ)
      → a < length xss
      → no_repeats (get_or xss w []) ≡ true
      → elem b (get_or xss a []) ≡ false
      → no_repeats (get_or (with_neighbor xss a b) w []) ≡ true
  no_repeats-with_neighbor xss a b w lt distinct fresh = elim (ℕ_discrete a w) [
    | yes e ↦
        let same : (a == w) ≡ true = ground arith in
        rw (get_or-with_neighbor xss a b w lt, same)
          (no_repeats-append (get_or xss w []) b distinct
            (subst (λ k. elem b (get_or xss k []) ≡ false) e fresh))
    | no ne ↦
        let other : (a == w) ≡ false = ground arith in
        rw (get_or-with_neighbor xss a b w lt, other) distinct
  ]

  not_back : elem u (neighbors g v) ≡ false
  not_back = elim (Bool-cases (elem u (neighbors g v))) [
    | inl there ↦ absurd (cc (simple.both_ways v u there, new))
    | inr absent ↦ absent
  ]

  no_repeats-link : (w : ℕ) → no_repeats (neighbors (link g u v) w) ≡ true
  no_repeats-link w =
      let back = not_back in
      no_repeats-with_neighbor once v u w (omega (arith, once-size))
        (no_repeats-with_neighbor g.adjacency u v w low (simple.listed_once w) new)
        (elem-with_neighbor g.adjacency u v v u low ∙ ground arith)

  degree-link : (w : ℕ) → degree (link g u v) w ≤ (link g u v).max_degree
  degree-link w = elim (ℕ_discrete u w) [
    | yes e ↦ subst (λ k. degree (link g u v) k ≤ (link g u v).max_degree) e (omega arith)
    | no ne ↦ elim (ℕ_discrete v w) [
      | yes e ↦ subst (λ k. degree (link g u v) k ≤ (link g u v).max_degree) e (omega arith)
      | no ne' ↦ omega (arith, ap length (neighbors-link w ne ne'), simple.degree_le w)
    ]
  ]

  link-cases :
      (w x : ℕ)
      → elem x (neighbors (link g u v) w) ≡ true
      → (elem x (neighbors g w) ≡ true) ⊎ ((u ≡ w) × (x ≡ v)) ⊎ ((v ≡ w) × (x ≡ u))
  link-cases w x h =
      let split : ((elem x (neighbors g w) || (u == w && x == v)) || (v == w && x == u)) ≡ true =
        sym (elem-link w x) ∙ h in
      ground arith

  link-keeps : (w x : ℕ) → elem x (neighbors g w) ≡ true → elem x (neighbors (link g u v) w) ≡ true
  link-keeps w x h = rw (elem-link w x, h) refl

  link-IsSimple : IsSimple (link g u v)
  link-IsSimple = record {
    in_range = λ w x h. elim (link-cases w x h) [
      | inl old ↦ omega (arith, size-link, simple.in_range w x old)
      | inr new_edge ↦ elim new_edge [
        | inl (_, e) ↦ omega (arith, size-link)
        | inr (_, e) ↦ omega (arith, size-link)
      ]
    ];
    both_ways = λ w x h. elim (link-cases w x h) [
      | inl old ↦ link-keeps x w (simple.both_ways w x old)
      | inr new_edge ↦ elim new_edge [
        | inl (e, e') ↦ rw (elem-link x w) (ground arith)
        | inr (e, e') ↦ rw (elem-link x w) (ground arith)
      ]
    ];
    no_loop = λ w. rw (elem-link w w, simple.no_loop w) (ground arith);
    listed_once = no_repeats-link;
    degree_le = degree-link;
    handshake = omega (
      arith,
      total_length-with_neighbor once v u (omega (arith, once-size)),
      total_length-with_neighbor g.adjacency u v low,
      simple.handshake,
    );
  }

-- Adding an edge keeps a graph simple, whatever its ends: an edge that is refused changes nothing.
pub add_edge-IsSimple : (g : Graph) (u v : ℕ) → IsSimple g → IsSimple (add_edge g u v)
unfolding add_edge
add_edge-IsSimple g u v simple = elim (Bool-cases (refuses g u v)) [
  | inl refused ↦ rw refused simple
  | inr accepted ↦
      rw accepted (
        link-IsSimple g simple u v (ground arith) (ground arith) (λ e. ground arith) (ground arith))
]

total_length-replicate : (n : ℕ) → total_length (replicate n []) ≡ 0
total_length-replicate zero = refl
total_length-replicate (suc n) = omega (arith, total_length-replicate n)

pub empty_graph-IsSimple : (n : ℕ) → IsSimple (empty_graph n)
empty_graph-IsSimple n = record {
  in_range = λ u v h. absurd (nobody u v h);
  both_ways = λ u v h. absurd (nobody u v h);
  no_loop = λ u. rw (no_neighbors u) refl;
  listed_once = λ u. rw (no_neighbors u) refl;
  degree_le = λ u. rw (no_neighbors u) (omega arith);
  handshake = total_length-replicate n;
}
  where
    no_neighbors : (u : ℕ) → neighbors (empty_graph n) u ≡ []
    no_neighbors u = get_or-replicate n [] u

    nobody : (u v : ℕ) → elem v (neighbors (empty_graph n) u) ≡ true → ⊥
    nobody u v = rw (no_neighbors u) (λ h. ground arith)

pub size-add_edge : (g : Graph) (u v : ℕ) → size (add_edge g u v) ≡ size g
unfolding add_edge
size-add_edge g u v = elim (Bool-cases (refuses g u v)) [
  | inl refused ↦ rw refused refl
  | inr accepted ↦
      rw accepted (length-set (with_neighbor g.adjacency u v) v _ ∙ length-set g.adjacency u _)
]
