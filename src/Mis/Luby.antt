-- ===== src/Mis/Luby.antt =====
-- src/mis_luby.c and src/lcg_random.c: Luby's randomized maximal independent set. A rank is a
-- `double` that holds a 32-bit number over 2^32, or -1.0 for an inactive node: here that number and
-- one, or 0, which compare alike.
use mini_distributed_computi.Prelude.{
  ℕ, zero, suc, ◌+◌, ◌*◌, ◌%◌, ◌^◌, ltb, ◌==◌, if◌then◌else◌, Bool, true, false, ◌&&◌, ◌||◌, not,
  List, [], ◌∷◌, get_or, set, replicate, Option, none, some,
}
use mini_distributed_computi.Graph.Types.{Graph, size, neighbors}
use mini_distributed_computi.Graph.Build.{lcg_next}
use mini_distributed_computi.Mis.Types.{Mis, member}

-- the ranks of the nodes, and the state of the generator after they are drawn
unfoldable pub draw_ranks : List Bool → ℕ → List ℕ × ℕ
draw_ranks [] seed = ([], seed)
draw_ranks (true ∷ active) seed =
    let (ranks, seed') = draw_ranks active (lcg_next seed) in
    ((lcg_next seed % 2 ^ 32 + 1) ∷ ranks, seed')
draw_ranks (false ∷ active) seed = let (ranks, seed') = draw_ranks active seed in (0 ∷ ranks, seed')

-- no active node of `ws` has a higher rank than `v`
unfoldable pub is_top : List Bool → List ℕ → ℕ → List ℕ → Bool
is_top active ranks v [] = true
is_top active ranks v (w ∷ ws) =
    not (member active w && ltb (get_or ranks v 0) (get_or ranks w 0)) && is_top active ranks v ws

unfoldable pub deactivate : List ℕ → List Bool → List Bool
deactivate [] active = active
deactivate (w ∷ ws) active = deactivate ws (set active w false)

-- the arrays of a round, and the number of nodes that joined in it
pub record Round : Type 0 where
  pub active : List Bool
  pub in_mis : List Bool
  pub joined : ℕ

abbrev pub join_round : Graph → Round → ℕ → Round
join_round g r v = record {
  active = deactivate (neighbors g v) (set r.active v false);
  in_mis = set r.in_mis v true;
  joined = r.joined + 1;
}

abbrev pub visit : Graph → List ℕ → Round → ℕ → Round
visit g ranks r v =
    if member r.active v
    then (if is_top r.active ranks v (neighbors g v) then join_round g r v else r)
    else r

-- the nodes `v`, `v + 1`, …, of which `f` are left
unfoldable pub round_loop : Graph → List ℕ → ℕ → ℕ → Round → Round
unfolding is_top deactivate
round_loop g ranks zero v r = r
round_loop g ranks (suc f) v r = round_loop g ranks f (suc v) (visit g ranks r v)

-- `mis_luby_round`: the arrays with the number of nodes that joined, and the generator's state
unfoldable pub luby_round : Graph → List Bool → List Bool → ℕ → Round × ℕ
unfolding draw_ranks round_loop
luby_round g active in_mis seed = (
  round_loop g (draw_ranks active seed).0 (size g) 0
      (record { active = active; in_mis = in_mis; joined = 0 }),
  (draw_ranks active seed).1,
)

-- some node is active
unfoldable pub any_active : List Bool → Bool
any_active [] = false
any_active (a ∷ active) = a || any_active active

-- the rounds, of which `f` are left: the set and its size
unfoldable pub luby_loop : Graph → ℕ → List Bool → List Bool → ℕ → ℕ → List Bool × ℕ
unfolding luby_round any_active
luby_loop g zero active in_mis seed mis_size = (in_mis, mis_size)
luby_loop g (suc f) active in_mis seed mis_size =
    let (r, seed') = luby_round g active in_mis seed in
    let rest = luby_loop g f r.active r.in_mis seed' (mis_size + r.joined) in
    if r.joined == 0 && not (any_active r.active) then (r.in_mis, mis_size) else rest

-- the first node of `ws` in the set
unfoldable pub first_member : List Bool → List ℕ → Option ℕ
first_member set_ [] = none
first_member set_ (w ∷ ws) =
    let rest = first_member set_ ws in if member set_ w then some w else rest

-- the dominators of the nodes `v`, `v + 1`, …, of which `f` are left
unfoldable pub fill_dominators : Graph → List Bool → ℕ → ℕ → List (Option ℕ)
unfolding first_member
fill_dominators g set_ zero v = []
fill_dominators g set_ (suc f) v =
    (if member set_ v then none else first_member set_ (neighbors g v))
    ∷ fill_dominators g set_ f (suc v)

-- `mis_luby_randomized`
unfoldable pub luby_randomized : Graph → ℕ → Option Mis
unfolding luby_loop fill_dominators
luby_randomized g seed =
    let n = size g in
    let found = luby_loop g (n * 20) (replicate n true) (replicate n false) seed 0 in
    if n == 0
    then none
    else some
        (record { in_mis = found.0; dominator = fill_dominators g found.0 n 0; mis_size = found.1 })

-- `mis_luby_phased`
unfoldable pub luby_phased : Graph → ℕ → Option Mis
unfolding luby_randomized
luby_phased g seed = luby_randomized g seed

-- `mis_luby_discrete`, which leaves `K` unread
unfoldable pub luby_discrete : Graph → ℕ → ℕ → Option Mis
unfolding luby_randomized
luby_discrete g k seed = luby_randomized g seed

-- `mis_bounded_independence`, which leaves the bound unread
unfoldable pub bounded_independence : Graph → ℕ → ℕ → Option Mis
unfolding luby_randomized
bounded_independence g bound seed = luby_randomized g seed
