-- ===== src/Coloring/Reduced.antt =====
-- The loop that removes one color after the other ends with at most one color more than the maximal
-- degree.
use mini_distributed_computi.Prelude.{
  ℕ, zero, suc, ◌+◌, ◌-◌, ◌≤◌, ◌<◌, ◌≡◌, refl, ltb, true, false, List, Option, arith, dec_lt,
}
use native.Mathlib.Numerals.{unary_clauses}
use mini_distributed_computi.Graph.Types.{Graph}
use mini_distributed_computi.Graph.Simple.{IsSimple}
use mini_distributed_computi.Coloring.Types.{Coloring, num_colors_used}
use mini_distributed_computi.Coloring.Reduce.{reduce_by_one, reduce_loop}
use mini_distributed_computi.Coloring.Removal.{
  IsColoring, used_above, num_colors_used-le, reduce_by_one-IsColoring,
}

next-IsColoring :
    (g : Graph) (c : Coloring) (cur : ℕ)
    → IsSimple g
    → g.max_degree + 1 < cur
    → IsColoring g cur c.colors
    → IsColoring g
        (num_colors_used (reduce_by_one g c (cur - 1)))
        (reduce_by_one g c (cur - 1)).colors
      × (num_colors_used (reduce_by_one g c (cur - 1)) < cur)
next-IsColoring g c zero simple lt ok = absurd (omega arith)
next-IsColoring g c (suc rm) simple lt ok =
    let next = reduce_by_one-IsColoring g c rm simple (omega arith) ok in
    let le = num_colors_used-le g rm (reduce_by_one g c rm) next in
    simp unary_clauses (
      record {
        below = record {
          same_size = next.below.same_size;
          proper = next.below.proper;
          low = used_above (reduce_by_one g c rm);
        };
        all = next.all;
      },
      omega arith,
    )

IsColoring-weaken :
    (g : Graph) (k k' : ℕ) (colors : List (Option ℕ))
    → k ≤ k'
    → IsColoring g k colors
    → IsColoring g k' colors
IsColoring-weaken g k k' colors le ok = record {
  below = record {
    same_size = ok.below.same_size;
    proper = ok.below.proper;
    low = λ v x h. let small = ok.below.low v x h in omega arith;
  };
  all = ok.all;
}

reduce_loop-stops :
    (g : Graph) (f : ℕ) (c : Coloring) (cur : ℕ)
    → ltb (g.max_degree + 1) cur ≡ false
    → reduce_loop g f c cur ≡ c
unfolding reduce_loop
reduce_loop-stops g zero c cur low = refl
reduce_loop-stops g (suc f) c cur low = rw low refl

reduce_loop-steps :
    (g : Graph) (f : ℕ) (c : Coloring) (cur : ℕ)
    → ltb (g.max_degree + 1) cur ≡ true
    → reduce_loop g (suc f) c cur
      ≡ reduce_loop g f
          (reduce_by_one g c (cur - 1))
          (num_colors_used (reduce_by_one g c (cur - 1)))
unfolding reduce_loop
reduce_loop-steps g f c cur high = rw high refl

-- What the loop returns with enough fuel, however much.
Ends : Graph → Coloring → ℕ → ℕ → ℕ → Type 0
Ends g c cur f h =
    IsColoring g (g.max_degree + 1) (reduce_loop g f c cur).colors
    × (reduce_loop g h c cur ≡ reduce_loop g f c cur)

reduce_loop-stays :
    (g : Graph) (c : Coloring) (cur f h : ℕ)
    → cur ≤ g.max_degree + 1
    → IsColoring g cur c.colors
    → Ends g c cur f h
unfolding Ends
reduce_loop-stays g c cur f h le ok =
    let low : ltb (g.max_degree + 1) cur ≡ false = ground arith in
    rw (reduce_loop-stops g f c cur low, reduce_loop-stops g h c cur low)
      (IsColoring-weaken g cur (g.max_degree + 1) c.colors le ok, refl)

reduce_loop-Ends :
    (g : Graph) (f h : ℕ) (c : Coloring) (cur : ℕ)
    → IsSimple g
    → cur ≤ f
    → cur ≤ h
    → IsColoring g cur c.colors
    → Ends g c cur f h
unfolding Ends
reduce_loop-Ends g zero h c cur simple enough enough' ok =
    reduce_loop-stays g c cur 0 h (omega arith) ok
reduce_loop-Ends g (suc f) zero c cur simple enough enough' ok =
    reduce_loop-stays g c cur (suc f) 0 (omega arith) ok
reduce_loop-Ends g (suc f) (suc h) c cur simple enough enough' ok =
    elim (dec_lt (g.max_degree + 1) cur) [
      | no ge ↦ reduce_loop-stays g c cur (suc f) (suc h) (omega arith) ok
      | yes lt ↦
          let high : ltb (g.max_degree + 1) cur ≡ true = ground arith in
          let (next, less) = next-IsColoring g c cur simple lt ok in
          let rest =
            reduce_loop-Ends g f h (reduce_by_one g c (cur - 1))
              (num_colors_used (reduce_by_one g c (cur - 1))) simple (omega arith) (omega arith)
              next in
          rw (reduce_loop-steps g f c cur high, reduce_loop-steps g h c cur high) rest
    ]

-- The loop of `cole_vishkin_coloring` ends on a simple graph when it starts from a proper coloring
-- of all nodes with colors below `num_colors`: there is one coloring that it returns with any fuel
-- of at least `num_colors`, which is proper, gives each node a color, and has at most one color more
-- than the graph's maximal degree.
pub reduce_loop-IsColoring :
    (g : Graph) (c : Coloring)
    → IsSimple g
    → IsColoring g c.num_colors c.colors
    → (d : Coloring) × ((f : ℕ) → c.num_colors ≤ f → reduce_loop g f c c.num_colors ≡ d)
      × IsColoring g (g.max_degree + 1) d.colors
unfolding Ends
reduce_loop-IsColoring g c simple ok =
    let k = c.num_colors in
    (
      reduce_loop g k c k,
      λ f enough. (reduce_loop-Ends g k f c k simple (omega arith) enough ok).1,
      (reduce_loop-Ends g k k c k simple (omega arith) (omega arith) ok).0,
    )
