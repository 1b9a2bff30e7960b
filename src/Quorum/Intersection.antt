-- ===== src/Quorum/Intersection.antt =====
-- Two quorums without repeated nodes share as many nodes as their sizes force.
use mini_distributed_computi.Prelude.{
  ℕ, zero, suc, ◌+◌, ◌-◌, ◌*◌, ◌/◌, ◌≤◌, ◌<◌, ◌≡◌, inl, inr, refl, ◌∙◌, ap, ltb, ◌==◌,
  if◌then◌else◌, Bool, true, false, ◌&&◌, not, List, [], ◌∷◌, length, arith, Bool-cases, ℕ_discrete,
  subst, le→leb,
}
use mini_distributed_computi.Quorum.System.{
  nodes_from, quorum_system_init, contains, all_in, is_valid, intersection, intersection_size,
  byzantine_quorum_size, byzantine_total_nodes, byzantine_quorum_intersection_check,
}

-- the nodes of `xs` below `n` that `xs` holds
unfoldable members : ℕ → List ℕ → ℕ
unfolding contains
members zero xs = 0
members (suc n) xs = members n xs + (if contains xs n then 1 else 0)

unfoldable pub distinct : List ℕ → Bool
unfolding contains
distinct [] = true
distinct (x ∷ xs) = not (contains xs x) && distinct xs

unfoldable pub below : ℕ → List ℕ → Bool
below n [] = true
below n (x ∷ xs) = ltb x n && below n xs

members-le : (n : ℕ) (xs : List ℕ) → members n xs ≤ n
unfolding members
members-le zero xs = omega arith
members-le (suc n) xs = elim (Bool-cases (contains xs n)) [
  | inl p ↦ rw p (omega (arith, members-le n xs))
  | inr p ↦ rw p (omega (arith, members-le n xs))
]

-- one node more that was not there
members-cons :
    (n : ℕ) (x : ℕ) (xs : List ℕ)
    → contains xs x ≡ false
    → members n (x ∷ xs) ≡ members n xs + (if ltb x n then 1 else 0)
unfolding members contains
members-cons zero x xs new = let none : ltb x 0 ≡ false = ground arith in rw none (omega arith)
members-cons (suc n) x xs new = elim (ℕ_discrete x n) [
  | yes e ↦
      let absent : contains xs n ≡ false = subst (λ k. contains xs k ≡ false) e new in
      ground (arith, members-cons n x xs new)
  | no ne ↦ ground (arith, members-cons n x xs new)
]

-- A list without repetitions has as many members as entries.
members-distinct :
    (n : ℕ) (xs : List ℕ) → distinct xs ≡ true → below n xs ≡ true → members n xs ≡ length xs
unfolding distinct below members
members-distinct n [] d b = no_members n
  where
    no_members : (n : ℕ) → members n [] ≡ 0
    no_members zero = refl
    no_members (suc n) = omega (arith, no_members n)
members-distinct n (x ∷ xs) d b =
    let new : contains xs x ≡ false = ground arith in
    let low : ltb x n ≡ true = ground arith in
    let rest = members-distinct n xs (ground arith) (ground arith) in
    members-cons n x xs new ∙ rw low (omega (arith, rest))

intersection-cons :
    (a b : List ℕ) (x : ℕ) → contains a x ≡ false → intersection a (x ∷ b) ≡ intersection a b
unfolding intersection contains
intersection-cons [] b x new = refl
intersection-cons (y ∷ a) b x new =
    let apart : (x == y) ≡ false = ground arith in
    rw (apart, intersection-cons a b x (ground arith)) refl

-- Whatever is in `a` is in the intersection or adds to `b`, and all are below `n`.
count_both :
    (n : ℕ) (a b : List ℕ)
    → distinct a ≡ true
    → below n a ≡ true
    → length a + members n b ≤ intersection_size a b + n
unfolding distinct below intersection
count_both n [] b d l = omega (arith, members-le n b)
count_both n (x ∷ a) b d l = elim (Bool-cases (contains b x)) [
  | inl shared ↦ rw shared (omega (arith, count_both n a b (ground arith) (ground arith)))
  | inr fresh ↦
      let new : contains a x ≡ false = ground arith in
      let low : ltb x n ≡ true = ground arith in
      let one : ◌≡◌ {A = ℕ} (if ltb x n then 1 else 0) 1 = rw low refl in
      rw fresh (
        omega (
          arith,
          count_both n a (x ∷ b) (ground arith) (ground arith),
          members-cons n x b fresh,
          one,
          ap length (intersection-cons a b x new),
        ))
]

-- Two lists of nodes below `n`, each without repetitions, share at least as many nodes as their
-- lengths together exceed `n`.
pub intersection_size-le :
    (n : ℕ) (a b : List ℕ)
    → distinct a ≡ true
    → below n a ≡ true
    → distinct b ≡ true
    → below n b ≡ true
    → length a + length b ≤ intersection_size a b + n
intersection_size-le n a b d l d' l' =
    omega (arith, count_both n a b d l, members-distinct n b d' l')

pub length-nodes_from : (i n : ℕ) → length (nodes_from i n) ≡ n
unfolding nodes_from
length-nodes_from i zero = refl
length-nodes_from i (suc n) = ap suc (length-nodes_from (suc i) n)

contains-nodes_from : (i n x : ℕ) → contains (nodes_from i n) x ≡ true → x < i + n
unfolding nodes_from contains
contains-nodes_from i zero x h = absurd (ground arith)
contains-nodes_from i (suc n) x h = elim (Bool-cases (i == x)) [
  | inl e ↦ ground arith
  | inr ne ↦
      let later : contains (nodes_from (suc i) n) x ≡ true = ground arith in
      omega (arith, contains-nodes_from (suc i) n x later)
]

all_in-below : (n : ℕ) (q : List ℕ) → all_in (nodes_from 0 n) q ≡ true → below n q ≡ true
unfolding all_in below
all_in-below n [] h = refl
all_in-below n (x ∷ q) h =
    let first : contains (nodes_from 0 n) x ≡ true = ground arith in
    let low : ltb x n ≡ true = ground (arith, contains-nodes_from 0 n x first) in
    rw (low, all_in-below n q (ground arith)) refl

-- Two valid quorums of an initialized system of `n` nodes, each without repeated nodes, share a
-- node: `quorum_intersection_size` counts at least one, and as many as their sizes force.
pub is_valid-intersection_size :
    (n : ℕ) (a b : List ℕ)
    → is_valid (quorum_system_init n) a ≡ true
    → is_valid (quorum_system_init n) b ≡ true
    → distinct a ≡ true
    → distinct b ≡ true
    → (1 ≤ intersection_size a b) × (length a + length b ≤ intersection_size a b + n)
unfolding quorum_system_init is_valid
is_valid-intersection_size n a b v w d d' =
    let size = length-nodes_from 0 n in
    let big : n / 2 < length a = ground (arith, size) in
    let big' : n / 2 < length b = ground (arith, size) in
    let shared =
      intersection_size-le n a b d (all_in-below n a (ground arith)) d'
        (all_in-below n b (ground arith)) in
    (omega (arith, big, big', shared), shared)

-- Two quorums of `byzantine_quorum_size f` nodes each, without repeated nodes, out of
-- `byzantine_total_nodes f` nodes pass the check of their intersection: they share f + 1 nodes.
pub byzantine_quorum_intersection_lem :
    (f : ℕ) (a b : List ℕ)
    → length a ≡ byzantine_quorum_size f
    → length b ≡ byzantine_quorum_size f
    → distinct a ≡ true
    → distinct b ≡ true
    → below (byzantine_total_nodes f) a ≡ true
    → below (byzantine_total_nodes f) b ≡ true
    → byzantine_quorum_intersection_check (byzantine_total_nodes f) a b ≡ true
unfolding byzantine_quorum_size byzantine_total_nodes byzantine_quorum_intersection_check
byzantine_quorum_intersection_lem f a b s t d d' l l' =
    let shared = intersection_size-le (3 * f + 1) a b d l d' l' in
    let enough : (3 * f + 1 - 1) / 3 + 1 ≤ intersection_size a b = omega (arith, shared, s, t) in
    le→leb ((3 * f + 1 - 1) / 3 + 1) (intersection_size a b) enough
