-- ===== src/Mis/Types.antt =====
-- mini-coloring-mis-lower-bounds/src/graph_utils.c and src/mis_extra.c: sets of nodes and the tests
-- on them. A dominator is `none` where the source has INVALID_NODE.
use mini_distributed_computi.Prelude.{
  ℕ, zero, suc, ◌+◌, ◌==◌, if◌then◌else◌, Bool, true, false, ◌&&◌, ◌||◌, not, List, [], ◌∷◌, length,
  get_or, replicate, Option, none, some,
}
use mini_distributed_computi.Graph.Types.{Graph, size, neighbors}

-- `MIS`
pub record Mis : Type 0 where
  pub in_mis : List Bool
  pub dominator : List (Option ℕ)
  pub mis_size : ℕ

abbrev pub empty_mis : ℕ → Mis
empty_mis n = record { in_mis = replicate n false; dominator = replicate n none; mis_size = 0 }

-- `mis_create`
unfoldable pub mis_create : ℕ → Option Mis
mis_create n = if n == 0 then none else some (empty_mis n)

-- `mis->in_mis[v]`
abbrev pub member : List Bool → ℕ → Bool
member set_ v = get_or set_ v false

-- the number of nodes that are set in an array
unfoldable pub set_size : List Bool → ℕ
set_size [] = 0
set_size (b ∷ bs) = (if b then 1 else 0) + set_size bs

-- some node of `ws` is in the set
unfoldable pub some_member : List Bool → List ℕ → Bool
some_member set_ [] = false
some_member set_ (w ∷ ws) = member set_ w || some_member set_ ws

unfoldable pub independent_loop : Graph → List Bool → ℕ → ℕ → Bool
unfolding some_member
independent_loop g set_ zero u = true
independent_loop g set_ (suc f) u =
    (if member set_ u then not (some_member set_ (neighbors g u)) else true)
    && independent_loop g set_ f (suc u)

-- `mis_is_independent`
unfoldable pub is_independent : Graph → Mis → Bool
unfolding independent_loop
is_independent g mis = size g == length mis.in_mis && independent_loop g mis.in_mis (size g) 0

unfoldable pub maximal_loop : Graph → List Bool → ℕ → ℕ → Bool
unfolding some_member
maximal_loop g set_ zero u = true
maximal_loop g set_ (suc f) u =
    (if member set_ u then true else some_member set_ (neighbors g u))
    && maximal_loop g set_ f (suc u)

-- `mis_is_maximal`
unfoldable pub is_maximal : Graph → Mis → Bool
unfolding is_independent maximal_loop
is_maximal g mis =
    size g == length mis.in_mis && (is_independent g mis && maximal_loop g mis.in_mis (size g) 0)

-- `mis_verify`
unfoldable pub verify : Graph → Mis → Bool
unfolding is_maximal
verify g mis = is_independent g mis && is_maximal g mis

-- the loop of `mis_dominating_count`
unfoldable pub dominating_loop : Graph → List Bool → ℕ → ℕ → ℕ
unfolding some_member
dominating_loop g set_ zero v = 0
dominating_loop g set_ (suc f) v =
    (if member set_ v || some_member set_ (neighbors g v) then 1 else 0)
    + dominating_loop g set_ f (suc v)

-- `mis_dominating_count`
unfoldable pub dominating_count : Graph → Mis → ℕ
unfolding dominating_loop
dominating_count g mis = dominating_loop g mis.in_mis (size g) 0
