-- ===== src/Quorum/Examples.antt =====
-- Quorums on which the theorems apply.
use mini_distributed_computi.Prelude.{
  ◌+◌, ◌≡◌, ◌≤◌, refl, true, [], ◌∷◌, List, ℕ, ◌<◌, ◌⊎◌, Option, none, some, length, arith,
}
use mini_distributed_computi.Quorum.Generate.{max_quorums, generate_all}
use mini_distributed_computi.Quorum.Generated.{IsGenerated, generate_all-IsGenerated}
use mini_distributed_computi.Quorum.Majorities.{sum_choose, majorities}
use mini_distributed_computi.Quorum.System.{
  QuorumSystem, quorum_system_init, is_valid, intersection_size, achieved,
}
use mini_distributed_computi.Quorum.Intersection.{distinct, is_valid-intersection_size}

abbrev low : List ℕ
low = 0 ∷ 1 ∷ 2 ∷ []

abbrev high : List ℕ
high = 4 ∷ 2 ∷ 3 ∷ []

low-is_valid : is_valid (quorum_system_init 5) low ≡ true
unfolding is_valid quorum_system_init
low-is_valid = refl

high-is_valid : is_valid (quorum_system_init 5) high ≡ true
unfolding is_valid quorum_system_init
high-is_valid = refl

low-distinct : distinct low ≡ true
unfolding distinct
low-distinct = refl

high-distinct : distinct high ≡ true
unfolding distinct
high-distinct = refl

is_valid-intersection_size_example :
    (1 ≤ intersection_size low high) × (length low + length high ≤ intersection_size low high + 5)
is_valid-intersection_size_example =
    is_valid-intersection_size 5 low high low-is_valid high-is_valid low-distinct high-distinct

-- three of five responses are a quorum
three_of_five-achieved : achieved (true ∷ true ∷ true ∷ []) (quorum_system_init 5) ≡ true
unfolding achieved quorum_system_init
three_of_five-achieved = refl

generate_all-IsGenerated_example :
    ((majorities 5 ≤ max_quorums)
      × (qs : QuorumSystem) × (generate_all (quorum_system_init 5) ≡ some qs)
      × IsGenerated 5 qs)
    ⊎ ((max_quorums < majorities 5) × (generate_all (quorum_system_init 5) ≡ none))
generate_all-IsGenerated_example = generate_all-IsGenerated 5 (omega arith)

-- the numbers that the comment on `quorum_generate_all` gives
majorities_five : majorities 5 ≡ 16
unfolding sum_choose
majorities_five = refl

majorities_seven : majorities 7 ≡ 64
unfolding sum_choose
majorities_seven = refl

-- The array holds the quorums of 11 nodes, and not those of 12.
majorities_eleven : majorities 11 ≡ max_quorums
unfolding sum_choose
majorities_eleven = refl

majorities_twelve : majorities 12 ≡ 1586
unfolding sum_choose
majorities_twelve = refl

count_found : Option QuorumSystem → ℕ
count_found none = 0
count_found (some qs) = length qs.quorums

generate_all_five : count_found (generate_all (quorum_system_init 5)) ≡ 16
unfolding generate_all quorum_system_init count_found
generate_all_five = refl
