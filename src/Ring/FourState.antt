-- ===== src/Ring/FourState.antt =====
-- The ring of `ALGORITHM_4STATE` as the source has it: what its guards do not give.
use native.Mathlib.Nat.{mod-eq_of_lt}
use mini_distributed_computi.Prelude.{
  ℕ, zero, suc, ◌+◌, ◌%◌, ◌<◌, ◌≤◌, ◌≡◌, ◌≢◌, refl, ap, sym, ◌∙◌, arith, ℤ, pos, negsuc, true,
  false, not, List, minus_one, ==_iff, ap₂, length, Bool-cases, inl, inr, ℕ_discrete, ◌==◌,
}
use mini_distributed_computi.Ring.Config.{four_state, Ring, state_at, write_state}
use mini_distributed_computi.Ring.Privilege.{
  next_state, compute_privilege, is_privileged, is_legitimate,
}
use mini_distributed_computi.Ring.Step.{step, step_four_state}
use mini_distributed_computi.Ring.Tokens.{update}
use mini_distributed_computi.Ring.Valid.{
  IsValid, not_null, state_at-write_state, write_state-IsValid, write_state-shape,
}
use mini_distributed_computi.Ring.Count.{privileged}
use mini_distributed_computi.Ring.Run.{StepRecord, converge_to_legitimate}
use mini_distributed_computi.Ring.Convergence.{privileged_of_none, converge_to_legitimate-none}
use mini_distributed_computi.Ring.Guards.{step_idle, out_of_range}
use mini_distributed_computi.Ring.Closure.{weight, is_legitimate_iff, next_state-ne}

privileged-le_of_le : (c : Ring) (m k : ℕ) → m ≤ k → privileged c m ≤ privileged c k
unfolding privileged
privileged-le_of_le c m zero h = let e : m ≡ 0 = omega arith in rw e (omega arith)
privileged-le_of_le c m (suc k) h = elim (ℕ_discrete m (suc k)) [
  | yes e ↦ rw e (omega arith)
  | no ne ↦ omega (arith, privileged-le_of_le c m k (omega arith))
]

privileged-suc : (c : Ring) (i : ℕ) → privileged c (suc i) ≡ privileged c i + weight c i
unfolding privileged
privileged-suc c i = refl

-- Two machines with a privilege count as two.
pub two_privileged :
    (c : Ring) (i j : ℕ)
    → i < j
    → j < c.num_machines
    → is_privileged (compute_privilege c (pos i)) ≡ true
    → is_privileged (compute_privilege c (pos j)) ≡ true
    → 2 ≤ privileged c c.num_machines
two_privileged c i j lt h p q = ground (
  arith,
  privileged-suc c i,
  privileged-suc c j,
  privileged-le_of_le c (suc i) j,
  privileged-le_of_le c (suc j) c.num_machines,
)

-- the guards of the first machines, on the states
bottom_guard :
    {c : Ring}
    → c.variant ≡ four_state
    → IsValid c
    → is_privileged (compute_privilege c (pos 0)) ≡ (next_state c (state_at c 0) == state_at c 1)
unfolding compute_privilege
bottom_guard {c} e w = rw e (
    ground (
      arith,
      not_null w,
      ap (state_at c) (mod-eq_of_lt {n = 1} {m = c.num_machines} (omega arith)),
    ))

middle_guard :
    {c : Ring} (i : ℕ)
    → c.variant ≡ four_state
    → IsValid c
    → suc (suc i) < c.num_machines
    → is_privileged (compute_privilege c (pos (suc i)))
      ≡ not (next_state c (state_at c i) == state_at c (suc i))
unfolding compute_privilege
middle_guard {c} i e w h = rw e (ground (arith, not_null w))

middle_step :
    {c : Ring} (i : ℕ)
    → c.variant ≡ four_state
    → IsValid c
    → suc (suc i) < c.num_machines
    → next_state c (state_at c i) ≢ state_at c (suc i)
    → (step c (pos (suc i))).1 ≡ write_state c (suc i) (next_state c (state_at c i))
unfolding step step_four_state
middle_step {c} i e w h ne = rw e (ground (arith, not_null w))

-- A legitimate 4-state ring of four machines or more whose machines 0 and 1 are in one state: the
-- move of machine 1 gives machines 0 and 2 a privilege, so the ring is not legitimate any more.
pub four_state-not_closed :
    {c : Ring}
    → c.variant ≡ four_state
    → IsValid c
    → 4 ≤ c.num_machines
    → state_at c 1 ≡ state_at c 0
    → (is_legitimate c).0 ≡ true
    → (is_legitimate (step c (pos 1)).1).0 ≡ false
four_state-not_closed {c} e w four same legit = not_legitimate (
    two_privileged d 0 2 (omega arith) (omega (arith, shape.1))
      (bottom_guard (shape.3 ∙ e) w' ∙ (==_iff _ _).1 first)
      (middle_guard 1 (shape.3 ∙ e) w' (omega (arith, shape.1)) ∙ ground (arith, third)))
  where
    v : ℕ
    v = next_state c (state_at c 0)

    moves : v ≢ state_at c 1
    moves h = next_state-ne c (state_at c 0) w.enough (w.bounded 0 (omega arith)) (h ∙ same)

    d : Ring
    d = write_state c 1 v

    shape :
        (length d.machines ≡ length c.machines)
        × (d.num_machines ≡ c.num_machines)
        × (d.num_states ≡ c.num_states)
        × (d.variant ≡ c.variant)
    shape = write_state-shape c 1 v

    w' : IsValid d
    w' = write_state-IsValid 1 v (omega arith) (omega (arith, w.enough)) w

    at : (j : ℕ) → state_at d j ≡ update (state_at c) 1 v j
    at j = state_at-write_state c 1 v j (omega (arith, w.sized))

    first : next_state d (state_at d 0) ≡ state_at d 1
    first = ap₂ (λ (t k : ℕ). (t + 1) % k) (at 0) shape.2 ∙ sym (at 1)

    -- machine 1 has the only privilege, so machine 2 is one ahead of it
    ahead : next_state c (state_at c 1) ≡ state_at c 2
    ahead = elim (Bool-cases (next_state c (state_at c 1) == state_at c 2)) [
      | inl eq ↦ (==_iff _ _).0 eq
      | inr apart ↦ absurd (
          omega (
            arith,
            (is_legitimate_iff w).0 legit,
            two_privileged c 1 2 (omega arith) (omega arith)
                (middle_guard 0 e w (omega arith) ∙ ground (arith, moves))
                (middle_guard 1 e w (omega arith) ∙ ap not apart),
          ))
    ]

    third : next_state d (state_at d 1) ≢ state_at d 2
    third h = next_state-ne c v w.enough (omega (arith, w.enough)) (
        sym (ap₂ (λ (t k : ℕ). (t + 1) % k) (at 1) shape.2)
        ∙ h
        ∙ at 2
        ∙ sym ahead
        ∙ ap (next_state c) same)

    not_legitimate : 2 ≤ privileged d d.num_machines → (is_legitimate (step c (pos 1)).1).0 ≡ false
    not_legitimate many =
        rw (middle_step 0 e w (omega arith) moves) (elim (Bool-cases (is_legitimate d).0) [
          | inr no_more ↦ no_more
          | inl still ↦ absurd (omega (arith, (is_legitimate_iff w').0 still))
        ])

top_guard_two :
    {c : Ring}
    → c.variant ≡ four_state
    → IsValid c
    → c.num_machines ≡ 2
    → is_privileged (compute_privilege c (pos 1)) ≡ false
unfolding compute_privilege
top_guard_two {c} e w two = rw e (ground (arith, not_null w))

idle_alone :
    {c : Ring}
    → c.variant ≡ four_state
    → IsValid c
    → c.num_machines ≡ 2
    → next_state c (state_at c 0) ≢ state_at c 1
    → (i : ℕ) → is_privileged (compute_privilege c (pos i)) ≡ false
idle_alone e w two apart zero = bottom_guard e w ∙ ground arith
idle_alone e w two apart (suc zero) = top_guard_two e w two
idle_alone {c} e w two apart (suc (suc i)) =
    elim (Bool-cases (is_privileged (compute_privilege c (pos (suc (suc i)))))) [
      | inl p ↦ absurd (out_of_range c (pos (suc (suc i))) (ground arith) p)
      | inr idle ↦ idle
    ]

-- A 4-state ring of two machines whose machine 1 is not one ahead of machine 0 is stuck: no step
-- of any machine changes it, and `ring_converge_to_legitimate` fails on it.
pub two_machines-stuck :
    {c : Ring} (max_steps : ℕ) (history : List StepRecord) (cap : ℕ)
    → c.variant ≡ four_state
    → IsValid c
    → c.num_machines ≡ 2
    → next_state c (state_at c 0) ≢ state_at c 1
    → ((id : ℤ) → (step c id).1 ≡ c)
      × ((converge_to_legitimate c max_steps history cap).result ≡ minus_one)
two_machines-stuck {c} max_steps history cap e w two apart =
    (idle_step, converge_to_legitimate-none w max_steps history cap none_privileged)
  where
    idle_step : (id : ℤ) → (step c id).1 ≡ c
    idle_step (pos i) = step_idle c (pos i) (idle_alone e w two apart i)
    idle_step (negsuc i) = elim (Bool-cases (is_privileged (compute_privilege c (negsuc i)))) [
      | inl p ↦ absurd (out_of_range c (negsuc i) refl p)
      | inr idle ↦ step_idle c (negsuc i) idle
    ]

    none_privileged : privileged c c.num_machines ≡ 0
    none_privileged = privileged_of_none c c.num_machines (λ k h. idle_alone e w two apart k)
