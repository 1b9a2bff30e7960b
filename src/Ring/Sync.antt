-- ===== src/Ring/Sync.antt =====
-- src/dijkstra_ring.c, L5: `ring_synchronous_round`, in which all privileged machines move at once.
use mini_distributed_computi.Prelude.{
  ℕ, zero, suc, ◌+◌, ◌-◌, ◌%◌, ◌==◌, if◌then◌else◌, Bool, true, false, ◌&&◌, not, ℤ, pos, minus_one,
}
use mini_distributed_computi.Ring.Config.{
  Variant, three_state, four_state, k_state, Ring, is_null, state_at, write_state,
}
use mini_distributed_computi.Ring.Privilege.{next_state, compute_privilege, is_privileged}

abbrev pub is_four_state : Variant → Bool
is_four_state three_state = false
is_four_state four_state = true
is_four_state k_state = false

-- The write of phase 2 for machine `i`, whose guard held. `old` is the ring before the round: its
-- states are the snapshot. `c` is the ring that the loop updates.
unfoldable pub sync_write : Ring → Ring → ℕ → Ring
sync_write old c i =
    let n = old.num_machines in
    let curr = state_at old i in
    if i == 0
    then (if is_four_state old.variant
        then (if next_state old curr == state_at old ((i + 1) % n)
            then write_state c i (state_at old ((i + 1) % n))
            else c)
        else (if curr == state_at old (n - 1)
            then write_state c i (next_state old (state_at old (n - 1)))
            else c))
    else (if i == n - 1 && is_four_state old.variant
        then (if (next_state old (state_at old (i - 1)) == curr)
              && not (next_state old (state_at old 0) == curr)
            then write_state c i (next_state old curr)
            else c)
        else (if is_four_state old.variant
            then (if not (next_state old (state_at old (i - 1)) == curr)
                then write_state c i (next_state old (state_at old (i - 1)))
                else c)
            else (if not (curr == state_at old ((i + n - 1) % n))
                then write_state c i (state_at old ((i + n - 1) % n))
                else c)))

-- phase 2 from machine `i` on, with `f` machines left
unfoldable pub sync_loop : ℕ → ℕ → Ring → Ring → ℕ → ℕ × Ring
unfolding sync_write
sync_loop zero i old c moved = (moved, c)
sync_loop (suc f) i old c moved =
    let should_move = is_privileged (compute_privilege old (pos i)) in
    sync_loop f (i + 1) old (if should_move then sync_write old c i else c)
      (if should_move then moved + 1 else moved)

-- `ring_synchronous_round`
unfoldable pub synchronous_round : Ring → ℤ × Ring
unfolding sync_loop
synchronous_round c =
    if is_null c.machines
    then (minus_one, c)
    else (let (moved, c') = sync_loop c.num_machines 0 c c 0 in (pos moved, c'))
