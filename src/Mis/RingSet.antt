-- ===== src/Mis/RingSet.antt =====
-- `mis_ring_deterministic` of src/mis_deterministic.c: the set on a ring of `n` nodes with
-- identifiers, of which there are `n`.
use mini_distributed_computi.Prelude.{
  ℕ, zero, suc, ◌+◌, ◌-◌, ◌%◌, ltb, if◌then◌else◌, Bool, ◌&&◌, ◌||◌, List, get_or, set, Option,
  none, some, true, ℤ, pos, ltb_ℤ,
}
use mini_distributed_computi.Mis.Types.{Mis, empty_mis, member}

abbrev pub left_of : ℕ → ℕ → ℕ
left_of n v = (v + n - 1) % n

abbrev pub right_of : ℕ → ℕ → ℕ
right_of n v = (v + 1) % n

-- `ids[v] < ids[w]`
abbrev pub smaller_id : List ℤ → ℕ → ℕ → Bool
smaller_id ids v w = ltb_ℤ (get_or ids v (pos 0)) (get_or ids w (pos 0))

abbrev pub ring_join : ℕ → Mis → ℕ → Mis
ring_join n mis v = record {
  in_mis = set mis.in_mis v true;
  dominator = set (set mis.dominator (left_of n v) (some v)) (right_of n v) (some v);
  mis_size = mis.mis_size + 1;
}

abbrev pub ring_visit : ℕ → List ℤ → Mis → ℕ → Mis
ring_visit n ids mis v =
    if member mis.in_mis v || (member mis.in_mis (left_of n v) || member mis.in_mis (right_of n v))
    then mis
    else (if smaller_id ids v (left_of n v) && smaller_id ids v (right_of n v)
        then ring_join n mis v
        else mis)

-- the nodes `v`, `v + 1`, …, of which `f` are left
unfoldable pub ring_pass : ℕ → List ℤ → ℕ → ℕ → Mis → Mis
ring_pass n ids zero v mis = mis
ring_pass n ids (suc f) v mis = ring_pass n ids f (suc v) (ring_visit n ids mis v)

-- the passes that are left
unfoldable pub ring_passes : ℕ → List ℤ → ℕ → Mis → Mis
unfolding ring_pass
ring_passes n ids zero mis = mis
ring_passes n ids (suc r) mis = ring_passes n ids r (ring_pass n ids n 0 mis)

-- `mis_ring_deterministic`
unfoldable pub ring_deterministic : ℕ → List ℤ → Option Mis
unfolding ring_passes
ring_deterministic n ids = if ltb n 3 then none else some (ring_passes n ids n (empty_mis n))
