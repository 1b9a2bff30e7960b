-- ===== src/Ring/Privilege.antt =====
-- src/dijkstra_ring.c, L2: the guards of the three algorithms, and the count of privileges.
use mini_distributed_computi.Prelude.{
  ℕ, zero, suc, ◌+◌, ◌-◌, ◌%◌, ◌==◌, if◌then◌else◌, Bool, true, false, ◌&&◌, not, ℤ, pos, minus_one,
  eqb_ℤ,
}
use mini_distributed_computi.Ring.Config.{
  Privilege, no_privilege, bottom, normal, top, Variant, three_state, four_state, k_state, Ring,
  is_null, state_at, write_privilege, has_machine, to_index,
}

-- `(machine_id == 0) ? (n - 1) : (machine_id - 1)`
abbrev pub prev_index : ℕ → ℕ → ℕ
prev_index n zero = n - 1
prev_index n (suc i) = i

-- the case of ALGORITHM_3STATE and ALGORITHM_KSTATE
abbrev pub privilege_copying : Ring → ℕ → Privilege
privilege_copying c i =
    if i == 0
    then (if state_at c i == state_at c (prev_index c.num_machines i) then bottom else no_privilege)
    else (if not (state_at c i == state_at c (prev_index c.num_machines i))
        then normal
        else no_privilege)

-- `(s + 1) % k`
abbrev pub next_state : Ring → ℕ → ℕ
next_state c s = (s + 1) % c.num_states

-- the guard of the top machine
abbrev pub top_guard : Ring → ℕ → Bool
top_guard c i =
    (next_state c (state_at c (prev_index c.num_machines i)) == state_at c i)
    && not (next_state c (state_at c 0) == state_at c i)

-- the case of ALGORITHM_4STATE
abbrev pub privilege_four_state : Ring → ℕ → Privilege
privilege_four_state c i =
    if i == 0
    then (if next_state c (state_at c i) == state_at c ((i + 1) % c.num_machines)
        then bottom
        else no_privilege)
    else (if i == c.num_machines - 1
        then (if top_guard c i then top else no_privilege)
        else (if not (next_state c (state_at c (prev_index c.num_machines i)) == state_at c i)
            then normal
            else no_privilege))

abbrev pub privilege_at : Ring → ℕ → Variant → Privilege
privilege_at c i three_state = privilege_copying c i
privilege_at c i k_state = privilege_copying c i
privilege_at c i four_state = privilege_four_state c i

-- `ring_compute_privilege`
unfoldable pub compute_privilege : Ring → ℤ → Privilege
compute_privilege c id =
    if has_machine c id then privilege_at c (to_index id) c.variant else no_privilege

-- `p != PRIVILEGE_NONE`
abbrev pub is_privileged : Privilege → Bool
is_privileged no_privilege = false
is_privileged bottom = true
is_privileged normal = true
is_privileged top = true

-- the loop of `ring_count_privileges` from machine `i` on, with `f` rounds left; it caches what it
-- finds in the machines
unfoldable pub count_loop : ℕ → ℕ → Ring → ℕ → ℕ × Ring
count_loop zero i c count = (count, c)
count_loop (suc f) i c count =
    count_loop f (i + 1) (write_privilege c i (compute_privilege c (pos i)))
      (if is_privileged (compute_privilege c (pos i)) then count + 1 else count)

-- `ring_count_privileges`
unfoldable pub count_privileges : Ring → ℤ × Ring
unfolding count_loop
count_privileges c =
    if is_null c.machines
    then (minus_one, c)
    else (let (count, c') = count_loop c.num_machines 0 c 0 in (pos count, c'))

-- `ring_is_legitimate`, with the ring whose machines it has updated
unfoldable pub is_legitimate : Ring → Bool × Ring
is_legitimate c = (eqb_ℤ (count_privileges c).0 (pos 1), (count_privileges c).1)
