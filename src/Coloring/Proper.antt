-- ===== src/Coloring/Proper.antt =====
-- Proper colorings, and what the greedy loop keeps: no node's color exceeds its degree.
use mini_distributed_computi.Prelude.{
  ℕ, ◌+◌, ◌≤◌, ◌<◌, ◌≡◌, ◌≢◌, ◌⊎◌, refl, sym, ◌∙◌, ap, subst, ==_iff, true, false, List, [], ◌∷◌,
  length, set, get_or-set_self, get_or-set_ne, length-set, elem, Option, none, some, arith, inl,
  inr, ℕ_discrete,
}
use mini_distributed_computi.Graph.Types.{Graph, size, neighbors, degree}
use mini_distributed_computi.Graph.Simple.{IsSimple}
use mini_distributed_computi.Coloring.Types.{Coloring, color, has_color, taken}
use mini_distributed_computi.Coloring.Greedy.{smallest_color, paint, greedy_step, greedy_loop}
use mini_distributed_computi.Coloring.Smallest.{
  IsSmallest, smallest_color-le, smallest_color-IsSmallest,
}

-- No node of color `x` has a neighbor of color `x`.
abbrev pub Proper : Graph → List (Option ℕ) → Type 0
Proper g colors =
    (u v x : ℕ) → elem v (neighbors g u) ≡ true → color colors u ≡ some x → color colors v ≢ some x

pub has_color-some : (o : Option ℕ) (x : ℕ) → o ≡ some x → has_color o x ≡ true
has_color-some o x h = rw h ((==_iff x x).1 refl)

-- a color that no node of `ws` has
pub taken-false :
    (colors : List (Option ℕ)) (ws : List ℕ) (x w : ℕ)
    → taken colors ws x ≡ false
    → elem w ws ≡ true
    → color colors w ≢ some x
unfolding taken
taken-false colors [] x w h member = absurd (ground arith)
taken-false colors (y ∷ ws) x w h member = elim (ℕ_discrete w y) [
  | yes e ↦ λ same.
      let has = has_color-some (color colors y) x (subst (λ k. color colors k ≡ some x) e same) in
      ground arith
  | no ne ↦ taken-false colors ws x w (ground arith) (ground arith)
]

-- the color of a node after one was painted
pub set-cases :
    (colors : List (Option ℕ)) (v w x y : ℕ)
    → v < length colors
    → color (set colors v (some y)) w ≡ some x
    → ((v ≡ w) × (y ≡ x)) ⊎ ((v ≢ w) × (color colors w ≡ some x))
set-cases colors v w x y lt h = elim (ℕ_discrete v w) [
  | no ne ↦ inr (ne, sym (get_or-set_ne colors v w (some y) none ne) ∙ h)
  | yes e ↦
      let now = get_or-set_self colors v (some y) none lt in
      let same : some y ≡ some x =
        sym now ∙ subst (λ k. color (set colors v (some y)) k ≡ some x) (sym e) h in
      inl (e, cc same)
]

-- A color that no neighbor has keeps a coloring proper.
pub Proper-set :
    (g : Graph) (colors : List (Option ℕ)) (v col : ℕ)
    → IsSimple g
    → v < length colors
    → taken colors (neighbors g v) col ≡ false
    → Proper g colors
    → Proper g (set colors v (some col))
Proper-set g colors v col simple lt free proper u w x edge hu hw =
    elim (set-cases colors v u x col lt hu) [
      | inl (e, e') ↦ elim (set-cases colors v w x col lt hw) [
        | inl (f, f') ↦ cc (
          simple.no_loop v,
          subst (λ k. elem k (neighbors g v) ≡ true) (sym f)
              (subst (λ k. elem w (neighbors g k) ≡ true) (sym e) edge),
        )
        | inr (ne, old) ↦
            taken-false colors (neighbors g v) col w free
              (subst (λ k. elem w (neighbors g k) ≡ true) (sym e) edge) (old ∙ ap some (sym e'))
      ]
      | inr (ne, old) ↦ elim (set-cases colors v w x col lt hw) [
        | inl (f, f') ↦
            taken-false colors (neighbors g v) col u free
              (simple.both_ways u v (subst (λ k. elem k (neighbors g u) ≡ true) (sym f) edge))
              (old ∙ ap some (sym f'))
        | inr (ne', old') ↦ proper u w x edge old old'
      ]
    ]

-- What every step of the greedy loop keeps.
pub record IsPartial (g : Graph) (c : Coloring) : Type 0 where
  pub same_size : length c.colors ≡ size g
  pub proper : Proper g c.colors
  pub low : (v x : ℕ) → color c.colors v ≡ some x → (x ≤ degree g v) × (x < c.num_colors)
  pub few : c.num_colors ≤ g.max_degree + 1

module _ (g : Graph) (c : Coloring) (simple : IsSimple g) (part : IsPartial g c) (v col : ℕ)
    (inside : v < size g) (good : IsSmallest c.colors (neighbors g v) col)
    (small : col ≤ degree g v) where
  lt : v < length c.colors
  lt = omega (arith, part.same_size)

  pub paint-IsPartial : IsPartial g (paint c v col)
  paint-IsPartial = record {
    same_size = length-set c.colors v (some col) ∙ part.same_size;
    proper = Proper-set g c.colors v col simple lt good.free part.proper;
    low = λ u x h. elim (set-cases c.colors v u x col lt h) [
      | inl (e, e') ↦ (subst (λ k. x ≤ degree g k) e (omega arith), ground arith)
      | inr (ne, old) ↦ let (p, q) = part.low u x old in (p, ground arith)
    ];
    few = let d = simple.degree_le v in let few = part.few in ground arith;
  }

pub smallest-painted :
    (g : Graph) (c : Coloring) (v k : ℕ)
    → IsSimple g
    → v < size g
    → degree g v < k
    → IsPartial g c
    → IsPartial g (paint c v (smallest_color k c.colors (neighbors g v)))
smallest-painted g c v k simple inside room part =
    paint-IsPartial g c simple part v _ inside
      (smallest_color-IsSmallest k c.colors (neighbors g v) room)
      (smallest_color-le k c.colors (neighbors g v))

-- node `v` has a color
abbrev pub IsColored : List (Option ℕ) → ℕ → Type 0
IsColored colors v = (x : ℕ) × (color colors v ≡ some x)

pub IsColored-set :
    (colors : List (Option ℕ)) (v w y : ℕ)
    → v < length colors
    → IsColored colors w ⊎ (v ≡ w)
    → IsColored (set colors v (some y)) w
IsColored-set colors v w y lt h = elim (ℕ_discrete v w) [
  | yes e ↦ (
    y,
    subst (λ k. color (set colors v (some y)) k ≡ some y) e
        (get_or-set_self colors v (some y) none lt),
  )
  | no ne ↦ elim h [
    | inl (x, old) ↦ (x, get_or-set_ne colors v w (some y) none ne ∙ old)
    | inr e ↦ absurd (ne e)
  ]
]

pub greedy_loop-IsPartial :
    (g : Graph) (order : List ℕ) (c : Coloring)
    → IsSimple g
    → ((v : ℕ) → elem v order ≡ true → v < size g)
    → IsPartial g c
    → IsPartial g (greedy_loop g order c)
      × ((v : ℕ)
          → (elem v order ≡ true) ⊎ IsColored c.colors v
          → IsColored (greedy_loop g order c).colors v)
unfolding greedy_loop
greedy_loop-IsPartial g [] c simple inside part =
    (part, λ v h. elim h [ inl none_left ↦ absurd (ground arith) | inr old ↦ old ])
greedy_loop-IsPartial g (v ∷ order) c simple inside part =
    let low : v < size g = inside v (ground arith) in
    let next = smallest-painted g c v (degree g v + 2) simple low (omega arith) part in
    let (rest, all) =
      greedy_loop-IsPartial g order (greedy_step g c v) simple (λ w h. inside w (ground arith))
        next in
    (
      rest,
      λ w h. all w (elim h [
        | inr old ↦ inr (IsColored-set c.colors v w _ (omega (arith, part.same_size)) (inl old))
        | inl member ↦ elim (ℕ_discrete v w) [
          | yes e ↦ inr (IsColored-set c.colors v w _ (omega (arith, part.same_size)) (inr e))
          | no ne ↦ inl (ground arith)
        ]
      ]),
    )
