-- ===== src/Quorum/Generated.antt =====
-- What `quorum_generate_all` finds: as many quorums as there are majorities, and all pairs meet.
use mini_distributed_computi.Prelude.{
  ℕ, zero, suc, ◌+◌, ◌-◌, ◌/◌, ◌≤◌, ◌<◌, ◌≡◌, refl, ltb, ◌==◌, true, false, List, [], ◌∷◌, ◌++◌,
  length, length-append, ◌⊎◌, none, some, dec_le, arith, Bool-cases, inl, inr,
}
use mini_distributed_computi.Quorum.System.{
  QuorumSystem, nodes_from, quorum_system_init, contains, intersection, intersection_size, meet,
  meets_all, pairwise_meet, intersection_holds,
}
use mini_distributed_computi.Paxos.Types.{max_nodes}
use mini_distributed_computi.Quorum.Generate.{max_quorums, with_quorums, generate_all}
use mini_distributed_computi.Quorum.Majorities.{
  chosen, sizes_from, majorities, all_majorities, length-all_majorities, generate_all-some,
  generate_all-none,
}
use mini_distributed_computi.Quorum.Intersection.{distinct, below, intersection_size-le}

-- `size` different nodes below `n`
pub record IsQuorum (n size : ℕ) (q : List ℕ) : Type 0 where
  pub different : distinct q ≡ true
  pub low : below n q ≡ true
  pub big : size ≤ length q

abbrev pub All : (List ℕ → Type 0) → List (List ℕ) → Type 0
All P [] = Unit
All P (q ∷ qs) = P q × All P qs

All-append : (P : List ℕ → Type 0) (xs ys : List (List ℕ)) → All P xs → All P ys → All P (xs ++ ys)
All-append P [] ys a b = b
All-append P (x ∷ xs) ys (h, a) b = (h, All-append P xs ys a b)

below-le : (m n : ℕ) (q : List ℕ) → m ≤ n → below m q ≡ true → below n q ≡ true
unfolding below
below-le m n [] le h = refl
below-le m n (x ∷ q) le h =
    let low : ltb x n ≡ true = ground arith in rw (low, below-le m n q le (ground arith)) refl

below-append : (n x : ℕ) (q : List ℕ) → x < n → below n q ≡ true → below n (q ++ (x ∷ [])) ≡ true
unfolding below
below-append n x [] lt h = ground arith
below-append n x (y ∷ q) lt h =
    let low : ltb y n ≡ true = ground arith in rw (low, below-append n x q lt (ground arith)) refl

contains-append :
    (y x : ℕ) (q : List ℕ)
    → contains q y ≡ false
    → (x == y) ≡ false
    → contains (q ++ (x ∷ [])) y ≡ false
unfolding contains
contains-append y x [] h ne = rw ne refl
contains-append y x (z ∷ q) h ne =
    let other : (z == y) ≡ false = ground arith in
    rw (other, contains-append y x q (ground arith) ne) refl

distinct-append :
    (i : ℕ) (q : List ℕ) → distinct q ≡ true → below i q ≡ true → distinct (q ++ (i ∷ [])) ≡ true
unfolding distinct below contains
distinct-append i [] d l = refl
distinct-append i (x ∷ q) d l =
    let new : contains q x ≡ false = ground arith in
    let apart : (i == x) ≡ false = ground arith in
    rw (contains-append x i q new apart, distinct-append i q (ground arith) (ground arith)) refl

chosen-IsQuorum :
    (n size k i m : ℕ) (current : List ℕ)
    → i + m ≤ n
    → size ≤ length current + k
    → distinct current ≡ true
    → below i current ≡ true
    → All (IsQuorum n size) (chosen k (nodes_from i m) current)
unfolding chosen nodes_from
chosen-IsQuorum n size zero i m current fits big d l =
    (record { different = d; low = below-le i n current (omega arith) l; big = omega arith }, tt)
chosen-IsQuorum n size (suc k) i zero current fits big d l = tt
chosen-IsQuorum n size (suc k) i (suc m) current fits big d l =
    All-append (IsQuorum n size) _ _
      (chosen-IsQuorum n size k (suc i) m (current ++ (i ∷ [])) (omega arith)
        (omega (arith, length-append current (i ∷ []))) (distinct-append i current d l)
        (below-append (suc i) i current (omega arith) (below-le i (suc i) current (omega arith) l)))
      (chosen-IsQuorum n size (suc k) (suc i) m current (omega arith) big d
        (below-le i (suc i) current (omega arith) l))

sizes_from-IsQuorum :
    (n size k rest : ℕ) → size ≤ k → All (IsQuorum n size) (sizes_from (nodes_from 0 n) k rest)
unfolding sizes_from distinct below
sizes_from-IsQuorum n size k zero le = tt
sizes_from-IsQuorum n size k (suc rest) le =
    All-append (IsQuorum n size) _ _
      (chosen-IsQuorum n size k 0 n [] (omega arith) (omega arith) refl refl)
      (sizes_from-IsQuorum n size (suc k) rest (omega arith))

meet-intersection : (a b : List ℕ) → 1 ≤ intersection_size a b → meet a b ≡ true
unfolding meet intersection
meet-intersection [] b = λ h. absurd (omega arith)
meet-intersection (x ∷ a) b = elim (Bool-cases (contains b x)) [
  | inl shared ↦ rw shared (λ h. refl)
  | inr fresh ↦ rw fresh (meet-intersection a b)
]

module _ (n size : ℕ) (many : n < size + size) where
  meets_all-IsQuorum :
      (q : List ℕ) (qs : List (List ℕ))
      → IsQuorum n size q
      → All (IsQuorum n size) qs
      → meets_all q qs ≡ true
  unfolding meets_all
  meets_all-IsQuorum q [] good all = refl
  meets_all-IsQuorum q (r ∷ rs) good (h, all) =
      let shared = intersection_size-le n q r good.different good.low h.different h.low in
      let meets : meet q r ≡ true =
        meet-intersection q r (omega (arith, shared, good.big, h.big)) in
      rw (meets, meets_all-IsQuorum q rs good all) refl

  pairwise_meet-IsQuorum : (qs : List (List ℕ)) → All (IsQuorum n size) qs → pairwise_meet qs ≡ true
  unfolding pairwise_meet
  pairwise_meet-IsQuorum [] all = refl
  pairwise_meet-IsQuorum (q ∷ qs) (good, all) =
      rw (meets_all-IsQuorum q qs good all, pairwise_meet-IsQuorum qs all) refl

-- all majorities of `n` nodes, each of which shares a node with every other
pub record IsGenerated (n : ℕ) (qs : QuorumSystem) : Type 0 where
  pub number : length qs.quorums ≡ majorities n
  pub each : All (IsQuorum n (n / 2 + 1)) qs.quorums
  pub meets : intersection_holds qs ≡ true

all_majorities-IsGenerated :
    (n : ℕ) → IsGenerated n (with_quorums (quorum_system_init n) (all_majorities n))
unfolding intersection_holds
all_majorities-IsGenerated n =
    let rest = n + 1 - (n / 2 + 1) in
    let each = sizes_from-IsQuorum n (n / 2 + 1) (n / 2 + 1) rest (omega arith) in
    record {
      number = length-all_majorities n;
      each = each;
      meets = pairwise_meet-IsQuorum n (n / 2 + 1) (omega arith) (all_majorities n) each;
    }

-- For at most 32 nodes: if the array of 1024 quorums holds as many as there are subsets of more
-- than half of the nodes, the sum of the binomial coefficients, then that many quorums are
-- generated, each of different nodes of the universe and of more than half of them, and the check
-- of the intersections holds on them. If not, the function writes past the end of the array.
pub generate_all-IsGenerated :
    (n : ℕ)
    → n ≤ max_nodes
    → ((majorities n ≤ max_quorums)
        × (qs : QuorumSystem) × (generate_all (quorum_system_init n) ≡ some qs)
        × IsGenerated n qs)
      ⊎ ((max_quorums < majorities n) × (generate_all (quorum_system_init n) ≡ none))
generate_all-IsGenerated n le = elim (dec_le (majorities n) max_quorums) [
  | yes room ↦ inl (
    room,
    with_quorums (quorum_system_init n) (all_majorities n),
    generate_all-some n room,
    all_majorities-IsGenerated n,
  )
  | no full ↦
      let more : max_quorums < majorities n = omega arith in inr (more, generate_all-none n more)
]
