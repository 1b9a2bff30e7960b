-- ===== src/Mis/Largest.antt =====
-- The brute force finds the size of a largest independent set.
use mini_distributed_computi.Prelude.{
  ℕ, zero, suc, ◌+◌, ◌≤◌, ◌<◌, ◌≡◌, refl, sym, ◌∙◌, ap₂, subst, ltb, Bool, true, false, List, [],
  ◌∷◌, length, get_or-set_self, get_or-set_ne, set, replicate, length-set, length-replicate,
  get_or-replicate, some, arith, Bool-cases, inl, inr, ℕ_discrete,
}
use mini_distributed_computi.Graph.Types.{Graph, size}
use mini_distributed_computi.Mis.Types.{member, set_size, independent_loop}
use mini_distributed_computi.Mis.Check.{Independent, independent_loop_all}
use mini_distributed_computi.Mis.Maximum.{
  Best, improve, brute_force, nothing_found, independence_number,
}

same_members :
    (xs ys : List Bool)
    → length xs ≡ length ys
    → ((i : ℕ) → i < length xs → member xs i ≡ member ys i)
    → xs ≡ ys
same_members [] [] len same = refl
same_members [] (y ∷ ys) len same = absurd (omega arith)
same_members (x ∷ xs) [] len same = absurd (omega arith)
same_members (x ∷ xs) (y ∷ ys) len same =
    ap₂ (λ b bs. b ∷ bs) (same 0 (omega arith))
      (same_members xs ys (omega arith) (λ i lt. same (suc i) (omega arith)))

improve-le : (g : Graph) (s : List Bool) (b : Best) → b.best_size ≤ (improve g s b).best_size
improve-le g s b = elim (Bool-cases (independent_loop g s (size g) 0)) [
  | inr clash ↦ rw clash (omega arith)
  | inl free ↦ rw free (ground arith)
]

improve-covers :
    (g : Graph) (s : List Bool) (b : Best)
    → Independent g s
    → set_size s ≤ (improve g s b).best_size
improve-covers g s b free = rw ((independent_loop_all g s).1 free) (ground arith)

brute_force-le :
    (g : Graph) (f idx : ℕ) (current : List Bool) (b : Best)
    → b.best_size ≤ (brute_force g f idx current b).best_size
unfolding brute_force
brute_force-le g zero idx current b = improve-le g current b
brute_force-le g (suc f) idx current b = omega (
  arith,
  brute_force-le g f (suc idx) (set current idx false) b,
  brute_force-le g f (suc idx) (set current idx true)
      (brute_force g f (suc idx) (set current idx false) b),
)

-- the two sets have the same nodes below `idx`
abbrev Agree : ℕ → List Bool → List Bool → Type 0
Agree idx s current = (i : ℕ) → i < idx → member s i ≡ member current i

Agree-set :
    (idx : ℕ) (s current : List Bool) (b : Bool)
    → idx < length current
    → member s idx ≡ b
    → Agree idx s current
    → Agree (suc idx) s (set current idx b)
Agree-set idx s current b lt h agree i low = elim (ℕ_discrete idx i) [
  | yes e ↦
      subst (λ k. member s k ≡ member (set current idx b) k) e
        (h ∙ sym (get_or-set_self current idx b false lt))
  | no ne ↦ agree i (omega arith) ∙ sym (get_or-set_ne current idx i b false ne)
]

-- No independent set that continues `current` is larger than what is found.
brute_force-covers :
    (g : Graph) (f idx : ℕ) (current : List Bool) (b : Best) (s : List Bool)
    → Independent g s
    → length s ≡ length current
    → idx + f ≡ length current
    → Agree idx s current
    → set_size s ≤ (brute_force g f idx current b).best_size
unfolding brute_force
brute_force-covers g zero idx current b s free len end agree =
    let same = same_members s current len (λ i lt. agree i (omega arith)) in
    subst (λ c. set_size s ≤ (improve g c b).best_size) same (improve-covers g s b free)
brute_force-covers g (suc f) idx current b s free len end agree =
    let without = brute_force g f (suc idx) (set current idx false) b in
    let lt : idx < length current = omega arith in
    elim (Bool-cases (member s idx)) [
      | inl is_member ↦
          brute_force-covers g f (suc idx) (set current idx true) without s free
            (len ∙ sym (length-set current idx true)) (omega (arith, length-set current idx true))
            (Agree-set idx s current true lt is_member agree)
      | inr other ↦
          let first =
            brute_force-covers g f (suc idx) (set current idx false) b s free
              (len ∙ sym (length-set current idx false))
              (omega (arith, length-set current idx false))
              (Agree-set idx s current false lt other agree) in
          omega (arith, first, brute_force-le g f (suc idx) (set current idx true) without)
    ]

-- an independent set of size `best_size`
record IsFound (g : Graph) (b : Best) : Type 0 where
  all_nodes : length b.best_set ≡ size g
  counted : set_size b.best_set ≡ b.best_size
  free : Independent g b.best_set

improve-IsFound :
    (g : Graph) (s : List Bool) (b : Best)
    → length s ≡ size g
    → IsFound g b
    → IsFound g (improve g s b)
improve-IsFound g s b len ok = elim (Bool-cases (independent_loop g s (size g) 0)) [
  | inr clash ↦ rw clash ok
  | inl free ↦ elim (Bool-cases (ltb b.best_size (set_size s))) [
    | inr worse ↦ rw (free, worse) ok
    | inl better ↦
        rw (free, better)
          (record { all_nodes = len; counted = refl; free = (independent_loop_all g s).0 free })
  ]
]

brute_force-IsFound :
    (g : Graph) (f idx : ℕ) (current : List Bool) (b : Best)
    → length current ≡ size g
    → IsFound g b
    → IsFound g (brute_force g f idx current b)
unfolding brute_force
brute_force-IsFound g zero idx current b len ok = improve-IsFound g current b len ok
brute_force-IsFound g (suc f) idx current b len ok =
    brute_force-IsFound g f (suc idx) (set current idx true) _ (length-set current idx true ∙ len) (
      brute_force-IsFound g f (suc idx) (set current idx false) b
        (length-set current idx false ∙ len) ok)

set_size-nothing : (n : ℕ) → set_size (replicate n false) ≡ 0
unfolding set_size
set_size-nothing zero = refl
set_size-nothing (suc n) = omega (arith, set_size-nothing n)

nothing_found-IsFound : (g : Graph) → IsFound g (nothing_found (size g))
nothing_found-IsFound g = record {
  all_nodes = length-replicate (size g) false;
  counted = set_size-nothing (size g);
  free = λ u v edge mu. absurd (cc (get_or-replicate (size g) false u, mu));
}

-- Some independent set has `k` nodes, and none has more.
pub record IsLargest (g : Graph) (k : ℕ) : Type 0 where
  pub attained : (s : List Bool) × (length s ≡ size g) × Independent g s × (set_size s ≡ k)
  pub bound : (s : List Bool) → length s ≡ size g → Independent g s → set_size s ≤ k

-- On a graph of at most 30 nodes `graph_independence_number` returns the largest number of nodes of
-- an independent set: some independent set has that many, and none has more.
pub independence_number-IsLargest :
    (g : Graph) → size g ≤ 30 → (k : ℕ) × (independence_number g ≡ some k) × IsLargest g k
unfolding independence_number
independence_number-IsLargest g small =
    let n = size g in
    let b = brute_force g n 0 (replicate n false) (nothing_found n) in
    let len = length-replicate n false in
    let found =
      brute_force-IsFound g n 0 (replicate n false) (nothing_found n) len
        (nothing_found-IsFound g) in
    let few : ltb 30 n ≡ false = ground arith in
    (
      b.best_size,
      rw few refl,
      record {
        attained = (b.best_set, found.all_nodes, found.free, found.counted);
        bound = λ s same free.
            brute_force-covers g n 0 (replicate n false) (nothing_found n) s free (same ∙ sym len)
              (omega (arith, len)) (λ i lt. absurd (omega arith));
      },
    )
