-- ===== src/Ring/Step.antt =====
-- src/dijkstra_ring.c, L3: one atomic move of one machine.
-- The results are 0 for a move, 1 for a guard that is false and -1 for no such machine.
use mini_distributed_computi.Prelude.{ℕ, ◌-◌, ◌%◌, ◌+◌, ◌==◌, if◌then◌else◌, not, ℤ, pos, minus_one}
use mini_distributed_computi.Ring.Config.{
  Variant, three_state, four_state, k_state, Ring, state_at, write_state, has_machine, to_index,
}
use mini_distributed_computi.Ring.Privilege.{prev_index, next_state, top_guard}

unfoldable pub move_three_state : Ring → ℕ → ℤ × Ring
move_three_state c i =
    let prev = state_at c (prev_index c.num_machines i) in
    if i == 0
    then (if state_at c i == prev then (pos 0, write_state c i (next_state c prev)) else (pos 1, c))
    else (if not (state_at c i == prev) then (pos 0, write_state c i prev) else (pos 1, c))

-- `ring_step_3state`
unfoldable pub step_three_state : Ring → ℤ → ℤ × Ring
unfolding move_three_state
step_three_state c id =
    if has_machine c id then move_three_state c (to_index id) else (minus_one, c)

unfoldable pub move_four_state : Ring → ℕ → ℤ × Ring
move_four_state c i =
    let n = c.num_machines in
    let curr = state_at c i in
    if i == 0
    then (if next_state c curr == state_at c ((i + 1) % n)
        then (pos 0, write_state c i (state_at c ((i + 1) % n)))
        else (pos 1, c))
    else (if i == n - 1
        then (if top_guard c i then (pos 0, write_state c i (next_state c curr)) else (pos 1, c))
        else (if not (next_state c (state_at c (prev_index n i)) == curr)
            then (pos 0, write_state c i (next_state c (state_at c (prev_index n i))))
            else (pos 1, c)))

-- `ring_step_4state`
unfoldable pub step_four_state : Ring → ℤ → ℤ × Ring
unfolding move_four_state
step_four_state c id = if has_machine c id then move_four_state c (to_index id) else (minus_one, c)

unfoldable pub move_k_state : Ring → ℕ → ℤ × Ring
move_k_state c i =
    let prev = state_at c (prev_index c.num_machines i) in
    if i == 0
    then (if state_at c i == prev
        then (pos 0, write_state c i (next_state c (state_at c i)))
        else (pos 1, c))
    else (if not (state_at c i == prev) then (pos 0, write_state c i prev) else (pos 1, c))

-- `ring_step_kstate`
unfoldable pub step_k_state : Ring → ℤ → ℤ × Ring
unfolding move_k_state
step_k_state c id = if has_machine c id then move_k_state c (to_index id) else (minus_one, c)

abbrev pub step_as : Variant → Ring → ℤ → ℤ × Ring
step_as three_state c id = step_three_state c id
step_as four_state c id = step_four_state c id
step_as k_state c id = step_k_state c id

-- `ring_step`
unfoldable pub step : Ring → ℤ → ℤ × Ring
step c id = step_as c.variant c id
