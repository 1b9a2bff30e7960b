-- ===== src/Mis/Classes.antt =====
-- The set that `mis_linial_deterministic` builds from a coloring.
use mini_distributed_computi.Prelude.{
  ℕ, zero, suc, ◌+◌, ◌≤◌, ◌<◌, ◌≡◌, refl, sym, ap, subst, ◌==◌, false, List, Option, some, arith,
  Bool-cases, inl, inr, ℕ_discrete,
}
use mini_distributed_computi.Graph.Types.{Graph, size}
use mini_distributed_computi.Graph.Simple.{IsSimple}
use mini_distributed_computi.Coloring.Types.{Coloring, color, has_color}
use mini_distributed_computi.Coloring.Sequential.{IsComplete}
use mini_distributed_computi.Mis.Types.{Mis, empty_mis}
use mini_distributed_computi.Mis.Greedy.{consider, class_loop, classes_loop, by_color_classes}
use mini_distributed_computi.Mis.Check.{Dominated}
use mini_distributed_computi.Mis.Sequential.{
  IsPartial, consider-IsPartial, consider-Dominated, consider-grow, Covers, Covers-IsMis,
  Dominated-grow, empty_mis-IsPartial, IsMis,
}

-- the nodes that the loop over one color considers
abbrev InClass : List (Option ℕ) → ℕ → ℕ → ℕ → ℕ → Type 0
InClass colors x f v u = (v ≤ u) × (u < v + f) × (color colors u ≡ some x)

class_loop-Covers :
    (g : Graph) (colors : List (Option ℕ)) (x f v : ℕ) (mis : Mis)
    → IsSimple g
    → v + f ≤ size g
    → IsPartial g mis
    → Covers g mis (class_loop g colors x f v mis) (InClass colors x f v)
unfolding class_loop
class_loop-Covers g colors x zero v mis simple fits part =
    (part, λ w h. h, λ u (le, lt, _). absurd (omega arith))
class_loop-Covers g colors x (suc f) v mis simple fits part =
    elim (Bool-cases (has_color (color colors v) x)) [
      | inr other ↦
          let (rest, grow, cover) =
            class_loop-Covers g colors x f (suc v) mis simple (omega arith) part in
          subst (λ m. Covers g mis m (InClass colors x (suc f) v))
            (ap (class_loop g colors x f (suc v)) (rw other refl))
            (
              rest,
              grow,
              λ u (le, lt, here_color). elim (ℕ_discrete v u) [
                | no ne ↦ cover u (omega arith, omega arith, here_color)
                | yes e ↦ absurd (other_color colors x v u e here_color other)
              ],
            )
      | inl mine ↦
          let next = consider-IsPartial g simple mis v (omega arith) part in
          let (rest, grow, cover) =
            class_loop-Covers g colors x f (suc v) (consider g mis v) simple (omega arith) next in
          subst (λ m. Covers g mis m (InClass colors x (suc f) v))
            (ap (class_loop g colors x f (suc v)) (rw mine refl))
            (
              rest,
              λ w h. grow w (consider-grow g mis v w h),
              λ u (le, lt, here_color). elim (ℕ_discrete v u) [
                | no ne ↦ cover u (omega arith, omega arith, here_color)
                | yes e ↦ Dominated-grow g (consider g mis v).in_mis _ u grow (
                    subst (Dominated g (consider g mis v).in_mis) e
                      (consider-Dominated g simple mis v (omega arith) part))
              ],
            )
    ]
  where
    other_color :
        (cs : List (Option ℕ)) (x v u : ℕ)
        → v ≡ u
        → color cs u ≡ some x
        → has_color (color cs v) x ≡ false
        → ⊥
    other_color cs x v u e h = rw (subst (λ k. color cs k ≡ some x) (sym e) h) (λ bad. ground arith)

classes_loop-Covers :
    (g : Graph) (colors : List (Option ℕ)) (f x : ℕ) (mis : Mis)
    → IsSimple g
    → IsPartial g mis
    → Covers g mis
        (classes_loop g colors f x mis)
        (λ u. (u < size g) × ((y : ℕ) × (x ≤ y) × (y < x + f) × (color colors u ≡ some y)))
unfolding classes_loop
classes_loop-Covers g colors zero x mis simple part =
    (part, λ w h. h, λ u (lt, (y, le, lt', _)). absurd (omega arith))
classes_loop-Covers g colors (suc f) x mis simple part =
    let (part', grow', cover') =
      class_loop-Covers g colors x (size g) 0 mis simple (omega arith) part in
    let (rest, grow, cover) =
      classes_loop-Covers g colors f (suc x) (class_loop g colors x (size g) 0 mis) simple part' in
    (
      rest,
      λ w h. grow w (grow' w h),
      λ u (lt, (y, le, lt', has)). elim (ℕ_discrete x y) [
        | no ne ↦ cover u (lt, (y, omega arith, omega arith, has))
        | yes e ↦
            Dominated-grow g _ _ u grow (
              cover' u (omega arith, omega arith, subst (λ k. color colors u ≡ some k) (sym e) has))
      ],
    )

-- From any complete coloring of a simple graph with nodes, the set that is built color by color is
-- returned, and is independent and maximal.
pub by_color_classes-IsMis :
    (g : Graph) (c : Coloring)
    → IsSimple g
    → 0 < size g
    → IsComplete g c
    → (mis : Mis) × (by_color_classes g c ≡ some mis) × IsMis g mis
unfolding by_color_classes
by_color_classes-IsMis g c simple some_node complete =
    let nonempty : (size g == 0) ≡ false = ground arith in
    (
      classes_loop g c.colors c.num_colors 0 (empty_mis (size g)),
      rw nonempty refl,
      Covers-IsMis g (empty_mis (size g)) _ _
          (classes_loop-Covers g c.colors c.num_colors 0 (empty_mis (size g)) simple
            (empty_mis-IsPartial g))
          (λ u lt.
            let (x, has) = complete.all u lt in
            (lt, (x, omega arith, omega (arith, complete.partial.low u x has), has))),
    )
