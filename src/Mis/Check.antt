-- ===== src/Mis/Check.antt =====
-- `mis_verify` decides whether a set is independent and maximal.
use mini_distributed_computi.Prelude.{
  ℕ, zero, suc, ◌+◌, ◌≤◌, ◌<◌, ◌≡◌, ◌≢◌, ◌⊎◌, ◌↔◌, refl, subst, ==_iff, Bool, true, false, List, [],
  ◌∷◌, length, get_or-out, elem, arith, Bool-cases, inl, inr, ℕ_discrete, dec_lt,
}
use mini_distributed_computi.Graph.Types.{Graph, size, neighbors}
use mini_distributed_computi.Mis.Types.{
  Mis, member, some_member, independent_loop, is_independent, maximal_loop, is_maximal, verify,
}

pub some_member-witness :
    (set_ : List Bool) (ws : List ℕ)
    → some_member set_ ws ≡ true
    → (w : ℕ) × (elem w ws ≡ true) × (member set_ w ≡ true)
unfolding some_member
some_member-witness set_ [] h = absurd (ground arith)
some_member-witness set_ (w ∷ ws) h = elim (Bool-cases (member set_ w)) [
  | inl yes_member ↦ (w, ground arith, yes_member)
  | inr other ↦
      let (x, in_ws, is_member) = some_member-witness set_ ws (ground arith) in
      (x, ground arith, is_member)
]

pub some_member-intro :
    (set_ : List Bool) (ws : List ℕ) (w : ℕ)
    → elem w ws ≡ true
    → member set_ w ≡ true
    → some_member set_ ws ≡ true
unfolding some_member
some_member-intro set_ [] w h is_member = absurd (ground arith)
some_member-intro set_ (x ∷ ws) w h is_member = elim (ℕ_discrete w x) [
  | yes e ↦
      let first : member set_ x ≡ true = subst (λ k. member set_ k ≡ true) e is_member in
      rw first refl
  | no ne ↦ let rest = some_member-intro set_ ws w (ground arith) is_member in ground arith
]

-- No member has a neighbor in the set.
abbrev pub Independent : Graph → List Bool → Type 0
Independent g set_ =
    (u v : ℕ) → elem v (neighbors g u) ≡ true → member set_ u ≡ true → member set_ v ≢ true

-- Node `u` is in the set, or one of its neighbors is.
abbrev pub Dominated : Graph → List Bool → ℕ → Type 0
Dominated g set_ u = (member set_ u ≡ true) ⊎ (some_member set_ (neighbors g u) ≡ true)

independent_loop_iff :
    (g : Graph) (set_ : List Bool) (f u : ℕ)
    → (independent_loop g set_ f u ≡ true) ↔ (
        (w : ℕ)
        → u ≤ w
        → w < u + f
        → member set_ w ≡ true
        → some_member set_ (neighbors g w) ≡ false)
unfolding independent_loop
independent_loop_iff g set_ zero u = (λ h w le lt. absurd (omega arith), λ h. refl)
independent_loop_iff g set_ (suc f) u = (
  λ h w le lt. elim (ℕ_discrete u w) [
    | yes e ↦
        subst (λ k. member set_ k ≡ true → some_member set_ (neighbors g k) ≡ false) e
          (λ is_member. ground arith)
    | no ne ↦ (independent_loop_iff g set_ f (suc u)).0 (ground arith) w (omega arith) (omega arith)
  ],
  λ h.
      let first = h u (omega arith) (omega arith) in
      let rest =
        (independent_loop_iff g set_ f (suc u)).1 (λ w le lt. h w (omega arith) (omega arith)) in
      elim (Bool-cases (member set_ u)) [
        | inl is_member ↦ rw (is_member, first is_member, rest) refl
        | inr other ↦ rw (other, rest) refl
      ],
)

maximal_loop_iff :
    (g : Graph) (set_ : List Bool) (f u : ℕ)
    → (maximal_loop g set_ f u ≡ true) ↔ ((w : ℕ) → u ≤ w → w < u + f → Dominated g set_ w)
unfolding maximal_loop
maximal_loop_iff g set_ zero u = (λ h w le lt. absurd (omega arith), λ h. refl)
maximal_loop_iff g set_ (suc f) u = (
  λ h w le lt. elim (ℕ_discrete u w) [
    | yes e ↦ subst (Dominated g set_) e (ground arith)
    | no ne ↦ (maximal_loop_iff g set_ f (suc u)).0 (ground arith) w (omega arith) (omega arith)
  ],
  λ h.
      let first = h u (omega arith) (omega arith) in
      let rest =
        (maximal_loop_iff g set_ f (suc u)).1 (λ w le lt. h w (omega arith) (omega arith)) in
      ground arith,
)

-- The loop of `mis_is_independent` decides that no two neighbors are in the set.
pub independent_loop_all :
    (g : Graph) (set_ : List Bool)
    → (independent_loop g set_ (size g) 0 ≡ true) ↔ Independent g set_
independent_loop_all g set_ = (
  λ h u v edge mu mv. elim (dec_lt u (size g)) [
    | yes lt ↦
        let clear = (independent_loop_iff g set_ (size g) 0).0 h u (omega arith) (omega arith) mu in
        cc (clear, some_member-intro set_ (neighbors g u) v edge mv)
    | no ge ↦ outside u v (omega arith) edge
  ],
  λ free. (independent_loop_iff g set_ (size g) 0).1 (λ w le lt. clear free w),
)
  where
    outside : (u v : ℕ) → size g ≤ u → elem v (neighbors g u) ≡ true → ⊥
    outside u v ge = rw (get_or-out g.adjacency u [] ge) (λ e. ground arith)

    clear :
        Independent g set_
        → (w : ℕ) → member set_ w ≡ true
        → some_member set_ (neighbors g w) ≡ false
    clear free w is_member = elim (Bool-cases (some_member set_ (neighbors g w))) [
      | inr none_there ↦ none_there
      | inl there ↦
          let (x, edge, mx) = some_member-witness set_ (neighbors g w) there in
          absurd (free w x edge is_member mx)
    ]

-- `mis_verify` returns true exactly on the sets that have the graph's number of nodes, contain no
-- two neighbors, and contain each node or a neighbor of it.
pub verify_iff :
    (g : Graph) (mis : Mis)
    → (verify g mis ≡ true) ↔ (
        (size g ≡ length mis.in_mis)
        × Independent g mis.in_mis
        × ((u : ℕ) → u < size g → Dominated g mis.in_mis u))
unfolding verify is_maximal is_independent
verify_iff g mis = (
  λ h. (
    ground arith,
    (independent_loop_all g mis.in_mis).0 (ground arith),
    λ u lt.
        (maximal_loop_iff g mis.in_mis (size g) 0).0 (ground arith) u (omega arith) (omega arith),
  ),
  λ (same, free, all).
      let one = (independent_loop_all g mis.in_mis).1 free in
      let two = (maximal_loop_iff g mis.in_mis (size g) 0).1 (λ w le lt. all w (omega arith)) in
      let equal = (==_iff (size g) (length mis.in_mis)).1 same in rw (equal, one, two) refl,
)
