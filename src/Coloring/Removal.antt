-- ===== src/Coloring/Removal.antt =====
-- Removing a color keeps a coloring proper and complete.
use mini_distributed_computi.Prelude.{
  ℕ, zero, suc, ◌+◌, ◌≤◌, ◌<◌, ◌≡◌, ◌⊎◌, refl, ◌∙◌, subst, ltb, if◌then◌else◌, true, false, List,
  [], ◌∷◌, length, set, get_or-out, length-set, elem, Option, none, some, arith, Bool-cases, inl,
  inr, ℕ_discrete, dec_lt,
}
use mini_distributed_computi.Graph.Types.{Graph, size, neighbors}
use mini_distributed_computi.Graph.Simple.{IsSimple}
use mini_distributed_computi.Coloring.Types.{Coloring, color, taken, used_loop, num_colors_used}
use mini_distributed_computi.Coloring.Greedy.{smallest_color}
use mini_distributed_computi.Coloring.Smallest.{smallest_color-le, smallest_color-IsSmallest}
use mini_distributed_computi.Coloring.Proper.{
  Proper, Proper-set, set-cases, IsColored, IsColored-set,
}
use mini_distributed_computi.Coloring.Reduce.{of_color, clear, new_color, recolor, reduce_by_one}
use mini_distributed_computi.Coloring.Cleared.{length-clear, color-clear, of_color-in, of_color-all}

-- `num_colors_used` is above all the colors, and not above a bound of them.
used_loop-ge : (cs : List (Option ℕ)) (b : ℕ) → b ≤ used_loop cs b
unfolding used_loop
used_loop-ge [] b = omega arith
used_loop-ge (none ∷ cs) b = used_loop-ge cs b
used_loop-ge (some x ∷ cs) b =
    let rest = used_loop-ge cs (if ltb b (x + 1) then x + 1 else b) in ground arith

used_loop-above : (cs : List (Option ℕ)) (b v x : ℕ) → color cs v ≡ some x → x < used_loop cs b
unfolding used_loop
used_loop-above [] b v x h = absurd (cc h)
used_loop-above (none ∷ cs) b zero x h = absurd (cc h)
used_loop-above (none ∷ cs) b (suc v) x h = used_loop-above cs b v x h
used_loop-above (some y ∷ cs) b zero x h =
    let same : y ≡ x = cc h in
    let rest = used_loop-ge cs (if ltb b (y + 1) then y + 1 else b) in ground arith
used_loop-above (some y ∷ cs) b (suc v) x h =
    used_loop-above cs (if ltb b (y + 1) then y + 1 else b) v x h

used_loop-le :
    (cs : List (Option ℕ)) (b k : ℕ)
    → b ≤ k
    → ((v x : ℕ) → color cs v ≡ some x → x < k)
    → used_loop cs b ≤ k
unfolding used_loop
used_loop-le [] b k le low = le
used_loop-le (none ∷ cs) b k le low = used_loop-le cs b k le (λ v x h. low (suc v) x h)
used_loop-le (some y ∷ cs) b k le low =
    let first = low 0 y refl in
    used_loop-le cs (if ltb b (y + 1) then y + 1 else b) k (ground arith) (λ v x h. low (suc v) x h)

pub used_above : (c : Coloring) (v x : ℕ) → color c.colors v ≡ some x → x < num_colors_used c
unfolding num_colors_used
used_above c v x h = used_loop-above c.colors 0 v x h

-- A proper coloring of `g` with colors below `k`, not necessarily of all nodes.
pub record Below (g : Graph) (k : ℕ) (colors : List (Option ℕ)) : Type 0 where
  pub same_size : length colors ≡ size g
  pub proper : Proper g colors
  pub low : (v x : ℕ) → color colors v ≡ some x → x < k

module _ (g : Graph) (rm : ℕ) (simple : IsSimple g) (room : g.max_degree < rm) where
  new_color-fits :
      (colors : List (Option ℕ)) (v : ℕ)
      → (taken colors (neighbors g v) (new_color rm colors (neighbors g v)) ≡ false)
        × (new_color rm colors (neighbors g v) < rm)
  new_color-fits colors v =
      let d = simple.degree_le v in
      let le = smallest_color-le rm colors (neighbors g v) in
      let good = smallest_color-IsSmallest rm colors (neighbors g v) (omega arith) in
      let low : ltb (smallest_color rm colors (neighbors g v)) rm ≡ true = ground arith in
      rw low (good.free, omega arith)

  recolor-Below :
      (vs : List ℕ) (colors : List (Option ℕ))
      → ((v : ℕ) → elem v vs ≡ true → v < size g)
      → Below g rm colors
      → Below g rm (recolor g rm vs colors)
        × ((w : ℕ) → (elem w vs ≡ true) ⊎ IsColored colors w → IsColored (recolor g rm vs colors) w)
  unfolding recolor
  recolor-Below [] colors inside ok =
      (ok, λ w h. elim h [ inl left_over ↦ absurd (ground arith) | inr old ↦ old ])
  recolor-Below (v ∷ vs) colors inside ok =
      let lt : v < length colors = let a = inside v (ground arith) in omega (arith, ok.same_size) in
      let col = new_color rm colors (neighbors g v) in
      let (free, small) = new_color-fits colors v in
      let (rest, all) =
        recolor-Below vs (set colors v (some col)) (λ w h. inside w (ground arith))
          (record {
            same_size = length-set colors v (some col) ∙ ok.same_size;
            proper = Proper-set g colors v col simple lt free ok.proper;
            low = λ w x h. elim (set-cases colors v w x col lt h) [
              | inl (e, e') ↦ omega arith
              | inr (ne, old) ↦ ok.low w x old
            ];
          }) in
      (
        rest,
        λ w h. all w (elim h [
          | inr old ↦ inr (IsColored-set colors v w col lt (inl old))
          | inl member ↦ elim (ℕ_discrete v w) [
            | yes e ↦ inr (IsColored-set colors v w col lt (inr e))
            | no ne ↦ inl (ground arith)
          ]
        ]),
      )

-- what is left when color `rm` is taken away
module _ (g : Graph) (rm : ℕ) (colors : List (Option ℕ)) (ok : Below g (suc rm) colors) where
  reco : List ℕ
  reco = of_color colors rm (size g) 0

  left_color :
      (w x : ℕ)
      → color (clear reco colors) w ≡ some x
      → (elem w reco ≡ false) × (color colors w ≡ some x)
  left_color w x = rw (color-clear reco colors w) (elim (Bool-cases (elem w reco)) [
    | inl member ↦ rw member (λ h. absurd (cc h))
    | inr other ↦ rw other (λ h. (refl, h))
  ])

  cleared-Below : Below g rm (clear reco colors)
  unfolding reco
  cleared-Below = record {
    same_size = length-clear reco colors ∙ ok.same_size;
    proper = λ u v x edge hu hv. ok.proper u v x edge (left_color u x hu).1 (left_color v x hv).1;
    low = λ w x h.
        let (out, old) = left_color w x h in
        let small = ok.low w x old in
        elim (ℕ_discrete x rm) [
          | no ne ↦ omega arith
          | yes e ↦ elim (dec_lt w (size g)) [
            | yes lt ↦
                let member =
                  of_color-all colors rm (size g) 0 w (omega arith) (omega arith)
                    (subst (λ k. color colors w ≡ some k) e old) in
                absurd (ground arith)
            | no ge ↦
                let gone = get_or-out colors w none (omega (arith, ok.same_size)) in
                absurd (cc (gone, old))
          ]
        ];
  }

  cleared-IsColored :
      (w : ℕ) → IsColored colors w → (elem w reco ≡ true) ⊎ IsColored (clear reco colors) w
  cleared-IsColored w (x, h) = elim (Bool-cases (elem w reco)) [
    | inl member ↦ inl member
    | inr other ↦ inr (x, color-clear reco colors w ∙ rw other h)
  ]

-- all nodes have a color below `k`, and neighbors have different ones
pub record IsColoring (g : Graph) (k : ℕ) (colors : List (Option ℕ)) : Type 0 where
  pub below : Below g k colors
  pub all : (v : ℕ) → v < size g → IsColored colors v

pub num_colors_used-le :
    (g : Graph) (k : ℕ) (c : Coloring) → IsColoring g k c.colors → num_colors_used c ≤ k
unfolding num_colors_used
num_colors_used-le g k c ok = used_loop-le c.colors 0 k (omega arith) ok.below.low

pub reduce_by_one-IsColoring :
    (g : Graph) (c : Coloring) (rm : ℕ)
    → IsSimple g
    → g.max_degree < rm
    → IsColoring g (suc rm) c.colors
    → IsColoring g rm (reduce_by_one g c rm).colors
unfolding reduce_by_one reco
reduce_by_one-IsColoring g c rm simple room ok =
    let vs = of_color c.colors rm (size g) 0 in
    let (below, all) =
      recolor-Below g rm simple room vs (clear vs c.colors)
        (λ v h. omega (arith, of_color-in c.colors rm (size g) 0 v h))
        (cleared-Below g rm c.colors ok.below) in
    record {
      below = below;
      all = λ v lt. all v (cleared-IsColored g rm c.colors ok.below v (ok.all v lt));
    }
