-- ===== src/Quorum/Majorities.antt =====
-- The subsets that `quorum_generate_all` is to find, as lists without a bound, and their number.
use mathlib.Core.List.{append-nil, append_assoc}
use mini_distributed_computi.Prelude.{
  ℕ, zero, suc, ◌+◌, ◌-◌, ◌/◌, ◌≤◌, ◌<◌, ◌≡◌, refl, ◌∙◌, ap, ap₂, leb, leb→le, ltb, if◌then◌else◌,
  true, false, List, [], ◌∷◌, ◌++◌, length, length-append, Option, none, some, ◌>>=◌, arith,
  Bool-cases, inl, inr,
}
use mini_distributed_computi.Quorum.System.{QuorumSystem, nodes_from, quorum_system_init}
use mini_distributed_computi.Quorum.Generate.{
  max_quorums, add_quorum, combinations, all_sizes, with_quorums, generate_all,
}

-- `current` with each choice of `k` more nodes
unfoldable pub chosen : ℕ → List ℕ → List ℕ → List (List ℕ)
chosen zero universe current = current ∷ []
chosen (suc k) [] current = []
chosen (suc k) (x ∷ universe) current =
    chosen k universe (current ++ (x ∷ [])) ++ chosen (suc k) universe current

-- the choices of `k`, `k + 1` and so on, `rest` sizes in all
unfoldable pub sizes_from : List ℕ → ℕ → ℕ → List (List ℕ)
sizes_from universe k zero = []
sizes_from universe k (suc rest) = chosen k universe [] ++ sizes_from universe (suc k) rest

-- the binomial coefficient of `n` and `k`
unfoldable pub choose : ℕ → ℕ → ℕ
choose n zero = 1
choose zero (suc k) = 0
choose (suc n) (suc k) = choose n k + choose n (suc k)

-- the sum of `choose n i` for the `rest` numbers `i` from `k`
unfoldable pub sum_choose : ℕ → ℕ → ℕ → ℕ
unfolding choose
sum_choose n k zero = 0
sum_choose n k (suc rest) = choose n k + sum_choose n (suc k) rest

-- the number of the sets of more than half of `n` nodes
abbrev pub majorities : ℕ → ℕ
majorities n = sum_choose n (n / 2 + 1) (n + 1 - (n / 2 + 1))

-- `more` behind `found`, if the array holds both
abbrev pub fit : List (List ℕ) → List (List ℕ) → Option (List (List ℕ))
fit found more = if leb (length found + length more) max_quorums then some (found ++ more) else none

fit-nil : (found : List (List ℕ)) → length found ≤ max_quorums → some found ≡ fit found []
fit-nil found le =
    let room : leb (length found + 0) max_quorums ≡ true = ground arith in
    rw (room, append-nil) refl

fit-bind :
    (found a b : List (List ℕ)) (next : List (List ℕ) → Option (List (List ℕ)))
    → ((all : List (List ℕ)) → length all ≤ max_quorums → next all ≡ fit all b)
    → (fit found a >>= next) ≡ fit found (a ++ b)
fit-bind found a b next goes = elim (Bool-cases (leb (length found + length a) max_quorums)) [
  | inl room ↦
      let both : length (found ++ a) ≤ max_quorums =
        omega (arith, length-append found a, leb→le (length found + length a) max_quorums room) in
      rw room (goes (found ++ a) both ∙ regroup)
  | inr full ↦
      let full' : leb (length found + length (a ++ b)) max_quorums ≡ false =
        grind (arith, length-append a b) in
      rw (full, full') refl
]
  where
    regroup : fit (found ++ a) b ≡ fit found (a ++ b)
    regroup =
        ap₂ (λ total all. if leb total max_quorums then some all else none)
          (omega (arith, length-append found a, length-append a b)) (append_assoc found a b)

add_quorum-fit : (found : List (List ℕ)) (q : List ℕ) → add_quorum found q ≡ fit found (q ∷ [])
unfolding add_quorum
add_quorum-fit found q = elim (Bool-cases (ltb (length found) max_quorums)) [
  | inl room ↦
      let room' : leb (length found + 1) max_quorums ≡ true = ground arith in rw (room, room') refl
  | inr full ↦
      let full' : leb (length found + 1) max_quorums ≡ false = ground arith in rw (full, full') refl
]

combinations-fit :
    (k : ℕ) (universe current : List ℕ) (found : List (List ℕ))
    → length found ≤ max_quorums
    → combinations k universe current found ≡ fit found (chosen k universe current)
unfolding combinations chosen
combinations-fit zero universe current found le = add_quorum-fit found current
combinations-fit (suc k) [] current found le = fit-nil found le
combinations-fit (suc k) (x ∷ universe) current found le =
    ap (λ o. o >>= combinations (suc k) universe current)
      (combinations-fit k universe (current ++ (x ∷ [])) found le)
    ∙ fit-bind found _ _ _ (combinations-fit (suc k) universe current)

all_sizes-fit :
    (universe : List ℕ) (k rest : ℕ) (found : List (List ℕ))
    → length found ≤ max_quorums
    → all_sizes universe k rest found ≡ fit found (sizes_from universe k rest)
unfolding all_sizes sizes_from
all_sizes-fit universe k zero found le = fit-nil found le
all_sizes-fit universe k (suc rest) found le =
    ap (λ o. o >>= all_sizes universe (suc k) rest) (combinations-fit k universe [] found le)
    ∙ fit-bind found _ _ _ (all_sizes-fit universe (suc k) rest)

length-chosen :
    (k : ℕ) (universe current : List ℕ)
    → length (chosen k universe current) ≡ choose (length universe) k
unfolding chosen choose
length-chosen zero universe current = refl
length-chosen (suc k) [] current = refl
length-chosen (suc k) (x ∷ universe) current =
    length-append (chosen k universe (current ++ (x ∷ []))) (chosen (suc k) universe current)
    ∙ ap₂ (λ a b. a + b) (length-chosen k universe (current ++ (x ∷ [])))
        (length-chosen (suc k) universe current)

length-sizes_from :
    (universe : List ℕ) (k rest : ℕ)
    → length (sizes_from universe k rest) ≡ sum_choose (length universe) k rest
unfolding sizes_from sum_choose
length-sizes_from universe k zero = refl
length-sizes_from universe k (suc rest) =
    length-append (chosen k universe []) (sizes_from universe (suc k) rest)
    ∙ ap₂ (λ a b. a + b) (length-chosen k universe []) (length-sizes_from universe (suc k) rest)

length-nodes_from : (i n : ℕ) → length (nodes_from i n) ≡ n
unfolding nodes_from
length-nodes_from i zero = refl
length-nodes_from i (suc n) = ap suc (length-nodes_from (suc i) n)

-- all majorities of `n` nodes
abbrev pub all_majorities : ℕ → List (List ℕ)
all_majorities n = sizes_from (nodes_from 0 n) (n / 2 + 1) (n + 1 - (n / 2 + 1))

pub length-all_majorities : (n : ℕ) → length (all_majorities n) ≡ majorities n
length-all_majorities n =
    length-sizes_from (nodes_from 0 n) (n / 2 + 1) (n + 1 - (n / 2 + 1))
    ∙ ap (λ m. sum_choose m (n / 2 + 1) (n + 1 - (n / 2 + 1))) (length-nodes_from 0 n)

-- the system of `n` nodes with the quorums found
abbrev pub stored : ℕ → Option (List (List ℕ)) → Option QuorumSystem
stored n o = o >>= (λ found. some (with_quorums (quorum_system_init n) found))

generate_all-fit :
    (n : ℕ) → generate_all (quorum_system_init n) ≡ stored n (fit [] (all_majorities n))
unfolding generate_all quorum_system_init
generate_all-fit n = ap (stored n) (
    ap (λ m. all_sizes (nodes_from 0 n) (n / 2 + 1) (m + 1 - (n / 2 + 1)) [])
      (length-nodes_from 0 n)
    ∙ all_sizes-fit (nodes_from 0 n) (n / 2 + 1) (n + 1 - (n / 2 + 1)) [] (omega arith))

-- The generated quorums are all majorities, if the array holds them.
pub generate_all-some :
    (n : ℕ)
    → majorities n ≤ max_quorums
    → generate_all (quorum_system_init n)
      ≡ some (with_quorums (quorum_system_init n) (all_majorities n))
generate_all-some n le =
    generate_all-fit n ∙ ap (λ b. stored n (if b then some (all_majorities n) else none)) room
  where
    room : leb (0 + length (all_majorities n)) max_quorums ≡ true
    room = grind (arith, length-all_majorities n)

pub generate_all-none :
    (n : ℕ) → max_quorums < majorities n → generate_all (quorum_system_init n) ≡ none
generate_all-none n lt =
    generate_all-fit n ∙ ap (λ b. stored n (if b then some (all_majorities n) else none)) full
  where
    full : leb (0 + length (all_majorities n)) max_quorums ≡ false
    full = grind (arith, length-all_majorities n)
