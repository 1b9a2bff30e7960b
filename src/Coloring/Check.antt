-- ===== src/Coloring/Check.antt =====
-- `coloring_is_proper` decides whether a coloring is proper.
use mini_distributed_computi.Prelude.{
  ℕ, zero, suc, ◌+◌, ◌≤◌, ◌<◌, ◌≡◌, ◌≢◌, ◌↔◌, refl, ap, subst, ==_iff, true, false, List, [], ◌∷◌,
  length, get_or-out, elem, Option, none, some, arith, Bool-cases, Option-cases, inl, inr,
  ℕ_discrete, dec_lt,
}
use mini_distributed_computi.Graph.Types.{Graph, size, neighbors}
use mini_distributed_computi.Coloring.Types.{
  Coloring, color, has_color, taken, no_clash, proper_loop, is_proper,
}
use mini_distributed_computi.Coloring.Proper.{Proper, taken-false}

has_color-true : (o : Option ℕ) (x : ℕ) → has_color o x ≡ true → o ≡ some x
has_color-true none x h = absurd (ground arith)
has_color-true (some y) x h = ap some ((==_iff y x).0 h)

taken-all :
    (colors : List (Option ℕ)) (ws : List ℕ) (x : ℕ)
    → ((w : ℕ) → elem w ws ≡ true → color colors w ≢ some x)
    → taken colors ws x ≡ false
unfolding taken
taken-all colors [] x h = refl
taken-all colors (y ∷ ws) x h = elim (Bool-cases (has_color (color colors y) x)) [
  | inl has ↦
      let here : elem y (y ∷ ws) ≡ true = ground arith in
      absurd (h y here (has_color-true (color colors y) x has))
  | inr other ↦ rw other (taken-all colors ws x (λ w member. h w (ground arith)))
]

-- Node `u` has no neighbor of its own color.
abbrev Fine : Graph → List (Option ℕ) → ℕ → Type 0
Fine g colors u =
    (v x : ℕ) → elem v (neighbors g u) ≡ true → color colors u ≡ some x → color colors v ≢ some x

no_clash_iff :
    (g : Graph) (colors : List (Option ℕ)) (u : ℕ)
    → (no_clash colors (color colors u) (neighbors g u) ≡ true) ↔ Fine g colors u
no_clash_iff g colors u = elim (Option-cases (color colors u)) [
  | inl e ↦ rw e (λ _ v x edge h. absurd (cc h), λ _. refl)
  | inr (y, e) ↦ rw e (
    λ h v x edge same.
        let equal : y ≡ x = cc same in
        let clear : taken colors (neighbors g u) y ≡ false = ground arith in
        taken-false colors (neighbors g u) x v
          (subst (λ k. taken colors (neighbors g u) k ≡ false) equal clear) edge,
    λ fine.
        let clear = taken-all colors (neighbors g u) y (λ w edge. fine w y edge refl) in
        ground arith,
  )
]

proper_loop_iff :
    (g : Graph) (colors : List (Option ℕ)) (f u : ℕ)
    → (proper_loop g colors f u ≡ true) ↔ ((w : ℕ) → u ≤ w → w < u + f → Fine g colors w)
unfolding proper_loop
proper_loop_iff g colors zero u = (λ h w le lt. absurd (omega arith), λ h. refl)
proper_loop_iff g colors (suc f) u = (
  λ h w le lt. elim (ℕ_discrete u w) [
    | yes e ↦ subst (Fine g colors) e ((no_clash_iff g colors u).0 (ground arith))
    | no ne ↦ (proper_loop_iff g colors f (suc u)).0 (ground arith) w (omega arith) (omega arith)
  ],
  λ h.
      let first = (no_clash_iff g colors u).1 (h u (omega arith) (omega arith)) in
      let rest =
        (proper_loop_iff g colors f (suc u)).1 (λ w le lt. h w (omega arith) (omega arith)) in
      rw (first, rest) refl,
)

-- `coloring_is_proper` returns true exactly on the colorings that have the graph's number of nodes
-- and give no two neighbors the same color; nodes may be uncolored.
pub is_proper_iff :
    (g : Graph) (c : Coloring)
    → (is_proper g c ≡ true) ↔ ((size g ≡ length c.colors) × Proper g c.colors)
unfolding is_proper
is_proper_iff g c = (
  λ h. (
    ground arith,
    λ u v x edge. elim (dec_lt u (size g)) [
      | yes lt ↦
          (proper_loop_iff g c.colors (size g) 0).0 (ground arith) u (omega arith) (omega arith) v x
            edge
      | no ge ↦ absurd (outside u v (omega arith) edge)
    ],
  ),
  λ (same, proper).
      let loop = (proper_loop_iff g c.colors (size g) 0).1 (λ w le lt. proper w) in
      let equal = (==_iff (size g) (length c.colors)).1 same in rw (equal, loop) refl,
)
  where
    outside : (u v : ℕ) → size g ≤ u → elem v (neighbors g u) ≡ true → ⊥
    outside u v ge = rw (get_or-out g.adjacency u [] ge) (λ e. ground arith)
