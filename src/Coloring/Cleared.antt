-- ===== src/Coloring/Cleared.antt =====
-- The first half of `coloring_reduce_by_one`: which nodes are collected, and what remains when they
-- have lost their color.
use mini_distributed_computi.Prelude.{
  ℕ, zero, suc, ◌+◌, ◌≤◌, ◌<◌, ◌≡◌, ◌≢◌, refl, sym, ◌∙◌, subst, ◌==◌, if◌then◌else◌, Bool, true,
  false, List, [], ◌∷◌, length, set, get_or-set_self, get_or-set_ne, get_or-out, length-set, elem,
  Option, none, some, arith, Bool-cases, inl, inr, ℕ_discrete, dec_lt,
}
use mini_distributed_computi.Coloring.Types.{color, has_color}
use mini_distributed_computi.Coloring.Proper.{has_color-some}
use mini_distributed_computi.Coloring.Reduce.{of_color, clear}

-- the color of a node after one lost its own
clear-set :
    (colors : List (Option ℕ)) (v u : ℕ) → v ≢ u → color (set colors v none) u ≡ color colors u
clear-set colors v u ne = get_or-set_ne colors v u none none ne

cleared : (colors : List (Option ℕ)) (v : ℕ) → color (set colors v none) v ≡ none
cleared colors v = elim (dec_lt v (length colors)) [
  | yes lt ↦ get_or-set_self colors v none none lt
  | no ge ↦ get_or-out (set colors v none) v none (omega (arith, length-set colors v none))
]

pub length-clear :
    (vs : List ℕ) (colors : List (Option ℕ)) → length (clear vs colors) ≡ length colors
unfolding clear
length-clear [] colors = refl
length-clear (v ∷ vs) colors = length-clear vs (set colors v none) ∙ length-set colors v none

either : (b : Bool) → (if◌then◌else◌ {A = Option ℕ} b none none) ≡ none
either true = refl
either false = refl

-- the nodes of `vs` have no color, and the others keep theirs
pub color-clear :
    (vs : List ℕ) (colors : List (Option ℕ)) (u : ℕ)
    → color (clear vs colors) u ≡ (if elem u vs then none else color colors u)
unfolding clear
color-clear [] colors u = refl
color-clear (v ∷ vs) colors u = elim (ℕ_discrete v u) [
  | no ne ↦
      let other : (u == v) ≡ false = ground arith in
      color-clear vs (set colors v none) u ∙ rw (other, clear-set colors v u ne) refl
  | yes e ↦
      let same : (u == v) ≡ true = ground arith in
      color-clear vs (set colors v none) u
      ∙ rw (same, subst (λ k. color (set colors v none) k ≡ none) e (cleared colors v))
          (either (elem u vs))
]

pub of_color-in :
    (colors : List (Option ℕ)) (rm f v u : ℕ) → elem u (of_color colors rm f v) ≡ true → u < v + f
unfolding of_color
of_color-in colors rm zero v u = λ h. absurd (ground arith)
of_color-in colors rm (suc f) v u = elim (Bool-cases (has_color (color colors v) rm)) [
  | inr out ↦ rw out (λ h. let lt = of_color-in colors rm f (suc v) u h in omega arith)
  | inl has ↦ rw has (λ h. elim (ℕ_discrete u v) [
    | yes e ↦ omega arith
    | no ne ↦ let lt = of_color-in colors rm f (suc v) u (ground arith) in omega arith
  ])
]

pub of_color-all :
    (colors : List (Option ℕ)) (rm f v u : ℕ)
    → v ≤ u
    → u < v + f
    → color colors u ≡ some rm
    → elem u (of_color colors rm f v) ≡ true
unfolding of_color
of_color-all colors rm zero v u le lt h = absurd (omega arith)
of_color-all colors rm (suc f) v u le lt h = elim (ℕ_discrete v u) [
  | yes e ↦
      let has : has_color (color colors v) rm ≡ true =
        has_color-some (color colors v) rm (subst (λ k. color colors k ≡ some rm) (sym e) h) in
      rw has (ground arith)
  | no ne ↦
      let rest = of_color-all colors rm f (suc v) u (omega arith) (omega arith) h in
      elim (Bool-cases (has_color (color colors v) rm)) [
        | inl has ↦ rw has (ground arith)
        | inr out ↦ rw out rest
      ]
]
