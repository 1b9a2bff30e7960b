-- ===== src/Coloring/Smallest.antt =====
-- The smallest color that no neighbor has.
use mini_distributed_computi.Prelude.{
  ℕ, zero, suc, ◌+◌, ◌≤◌, ◌<◌, ◌≡◌, refl, sym, ◌∙◌, ap, ltb, ◌==◌, ==_iff, if◌then◌else◌, Bool,
  true, false, ◌||◌, List, [], ◌∷◌, length, set, replicate, get_or, get_or-set_self, get_or-set_ne,
  get_or-replicate, length-set, length-replicate, Option, none, some, arith, Bool-cases, inl, inr,
  ℕ_discrete,
}
use mini_distributed_computi.Coloring.Types.{color, has_color, taken}
use mini_distributed_computi.Coloring.Greedy.{mark, mark_used, first_free, smallest_color}

-- No node of `ws` has color `x`, and each smaller color is taken.
pub record IsSmallest (colors : List (Option ℕ)) (ws : List ℕ) (x : ℕ) : Type 0 where
  pub free : taken colors ws x ≡ false
  pub below : (y : ℕ) → y < x → taken colors ws y ≡ true

pub IsSmallest-unique :
    (colors : List (Option ℕ)) (ws : List ℕ) (x y : ℕ)
    → IsSmallest colors ws x
    → IsSmallest colors ws y
    → x ≡ y
IsSmallest-unique colors ws x y p q = elim (ℕ_discrete x y) [
  | yes e ↦ e
  | no ne ↦ elim (Bool-cases (ltb x y)) [
    | inl lt ↦ absurd (cc (q.below x (ground arith), p.free))
    | inr ge ↦ absurd (cc (p.below y (ground arith), q.free))
  ]
]

mark-length :
    (limit : ℕ) (o : Option ℕ) (used : List Bool) → length (mark limit o used) ≡ length used
mark-length limit none used = refl
mark-length limit (some c) used = elim (Bool-cases (ltb c limit)) [
  | inl low ↦ rw low (length-set used c true)
  | inr high ↦ rw high refl
]

mark_used-length :
    (limit : ℕ) (colors : List (Option ℕ)) (ws : List ℕ) (used : List Bool)
    → length (mark_used limit colors ws used) ≡ length used
unfolding mark_used
mark_used-length limit colors [] used = refl
mark_used-length limit colors (w ∷ ws) used =
    mark_used-length limit colors ws (mark limit (color colors w) used)
    ∙ mark-length limit (color colors w) used

get_or-mark :
    (limit : ℕ) (o : Option ℕ) (used : List Bool) (x : ℕ)
    → length used ≡ limit
    → x < limit
    → get_or (mark limit o used) x false ≡ (has_color o x || get_or used x false)
get_or-mark limit none used x len lt = refl
get_or-mark limit (some c) used x len lt = elim (ℕ_discrete c x) [
  | yes e ↦
      let low : ltb c limit ≡ true = ground arith in
      let same : (c == x) ≡ true = (==_iff c x).1 e in
      rw (low, same, sym e) (get_or-set_self used c true false (omega arith))
  | no ne ↦
      let other : (c == x) ≡ false = ground arith in
      elim (Bool-cases (ltb c limit)) [
        | inl low ↦ rw (low, other) (get_or-set_ne used c x true false ne)
        | inr high ↦ rw (high, other) refl
      ]
]

or_swap : (p q r : Bool) → (p || (q || r)) ≡ ((q || p) || r)
or_swap true true r = refl
or_swap true false r = refl
or_swap false true r = refl
or_swap false false r = refl

or_false : (p : Bool) → (p || false) ≡ p
or_false true = refl
or_false false = refl

get_or-mark_used :
    (limit : ℕ) (colors : List (Option ℕ)) (ws : List ℕ) (used : List Bool) (x : ℕ)
    → length used ≡ limit
    → x < limit
    → get_or (mark_used limit colors ws used) x false ≡ (taken colors ws x || get_or used x false)
unfolding mark_used taken
get_or-mark_used limit colors [] used x len lt = refl
get_or-mark_used limit colors (w ∷ ws) used x len lt =
    get_or-mark_used limit colors ws (mark limit (color colors w) used) x
      (mark-length limit (color colors w) used ∙ len) lt
    ∙ ap (λ b. taken colors ws x || b) (get_or-mark limit (color colors w) used x len lt)
    ∙ or_swap (taken colors ws x) (has_color (color colors w) x) (get_or used x false)

first_free-found : (bs : List Bool) → get_or bs (first_free bs) false ≡ false
unfolding first_free
first_free-found [] = refl
first_free-found (true ∷ bs) = first_free-found bs
first_free-found (false ∷ bs) = refl

first_free-below : (bs : List Bool) (y : ℕ) → y < first_free bs → get_or bs y false ≡ true
unfolding first_free
first_free-below [] y lt = absurd (omega arith)
first_free-below (true ∷ bs) zero lt = refl
first_free-below (true ∷ bs) (suc y) lt = first_free-below bs y (omega arith)
first_free-below (false ∷ bs) y lt = absurd (omega arith)

count_marks : List Bool → ℕ
count_marks [] = 0
count_marks (b ∷ bs) = (if b then 1 else 0) + count_marks bs

first_free-le : (bs : List Bool) → first_free bs ≤ count_marks bs
unfolding first_free count_marks
first_free-le [] = omega arith
first_free-le (true ∷ bs) = omega (arith, first_free-le bs)
first_free-le (false ∷ bs) = omega arith

count_marks-set : (bs : List Bool) (i : ℕ) → count_marks (set bs i true) ≤ suc (count_marks bs)
unfolding count_marks
count_marks-set [] i = omega arith
count_marks-set (true ∷ bs) zero = omega arith
count_marks-set (false ∷ bs) zero = omega arith
count_marks-set (true ∷ bs) (suc i) = omega (arith, count_marks-set bs i)
count_marks-set (false ∷ bs) (suc i) = omega (arith, count_marks-set bs i)

count_marks-mark :
    (limit : ℕ) (o : Option ℕ) (used : List Bool)
    → count_marks (mark limit o used) ≤ suc (count_marks used)
count_marks-mark limit none used = omega arith
count_marks-mark limit (some c) used = elim (Bool-cases (ltb c limit)) [
  | inl low ↦ rw low (count_marks-set used c)
  | inr high ↦ rw high (omega arith)
]

count_marks-mark_used :
    (limit : ℕ) (colors : List (Option ℕ)) (ws : List ℕ) (used : List Bool)
    → count_marks (mark_used limit colors ws used) ≤ count_marks used + length ws
unfolding mark_used
count_marks-mark_used limit colors [] used = omega arith
count_marks-mark_used limit colors (w ∷ ws) used = omega (
  arith,
  count_marks-mark_used limit colors ws (mark limit (color colors w) used),
  count_marks-mark limit (color colors w) used,
)

count_marks-replicate : (k : ℕ) → count_marks (replicate k false) ≡ 0
unfolding count_marks
count_marks-replicate zero = refl
count_marks-replicate (suc k) = omega (arith, count_marks-replicate k)

-- There are as many smaller colors as nodes at most.
pub smallest_color-le :
    (k : ℕ) (colors : List (Option ℕ)) (ws : List ℕ) → smallest_color k colors ws ≤ length ws
unfolding smallest_color
smallest_color-le k colors ws = omega (
  arith,
  first_free-le (mark_used k colors ws (replicate k false)),
  count_marks-mark_used k colors ws (replicate k false),
  count_marks-replicate k,
)

-- With room for one color more than there are nodes, the smallest free color is found.
pub smallest_color-IsSmallest :
    (k : ℕ) (colors : List (Option ℕ)) (ws : List ℕ)
    → length ws < k
    → IsSmallest colors ws (smallest_color k colors ws)
unfolding smallest_color
smallest_color-IsSmallest k colors ws room = record {
  free = sym (at x (omega (arith, smallest_color-le k colors ws))) ∙ first_free-found marks;
  below = λ y lt.
      sym (at y (omega (arith, smallest_color-le k colors ws))) ∙ first_free-below marks y lt;
}
  where
    marks : List Bool
    marks = mark_used k colors ws (replicate k false)

    x : ℕ
    x = first_free marks

    at : (y : ℕ) → y < k → get_or marks y false ≡ taken colors ws y
    at y lt =
        get_or-mark_used k colors ws (replicate k false) y (length-replicate k false) lt
        ∙ ap (λ b. taken colors ws y || b) (get_or-replicate k false y)
        ∙ or_false (taken colors ws y)
