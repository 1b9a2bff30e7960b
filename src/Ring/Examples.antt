-- ===== src/Ring/Examples.antt =====
-- Rings on which the theorems apply, and runs of the functions on them.
use mini_distributed_computi.Prelude.{
  ℕ, ◌≡◌, ◌≢◌, ◌≤◌, refl, [], ◌∷◌, ◌==◌, true, false, ℤ, pos, minus_one, arith,
}
use mini_distributed_computi.Ring.Config.{
  no_privilege, Variant, three_state, four_state, k_state, Machine, Ring, init, write_privilege,
  write_state,
}
use mini_distributed_computi.Ring.Privilege.{compute_privilege, count_privileges, is_legitimate}
use mini_distributed_computi.Ring.Step.{step, step_three_state}
use mini_distributed_computi.Ring.Sync.{synchronous_round}
use mini_distributed_computi.Ring.Run.{converge_to_legitimate}
use mini_distributed_computi.Ring.Valid.{IsValid, well_formed-IsValid}
use mini_distributed_computi.Ring.Count.{privileged}
use mini_distributed_computi.Ring.Guards.{step-IsValid, step-result, expected_result}
use mini_distributed_computi.Ring.Closure.{no_deadlock, privileged-step-le, is_legitimate-step}
use mini_distributed_computi.Ring.Convergence.{Converged, converge_to_legitimate-Converged}
use mini_distributed_computi.Ring.SyncRound.{AllMoved, synchronous_round-AllMoved}
use mini_distributed_computi.Ring.FourState.{four_state-not_closed, two_machines-stuck}
use mini_distributed_computi.Ring.Access.{init-legitimate}

abbrev machine : ℕ → ℕ → Machine
machine i s = record {
  state = s;
  machine_id = i;
  is_bottom = i == 0;
  is_top = i == 3;
  privilege = no_privilege;
}

abbrev ring_of : Variant → ℕ → ℕ → ℕ → ℕ → ℕ → Ring
ring_of v k a b c d = record {
  machines = machine 0 a ∷ machine 1 b ∷ machine 2 c ∷ machine 3 d ∷ [];
  num_machines = 4;
  num_states = k;
  variant = v;
}

-- three machines hold a privilege
abbrev sample : Ring
sample = ring_of three_state 3 0 1 2 1

-- one machine holds a privilege
abbrev calm : Ring
calm = ring_of k_state 5 3 3 2 2

abbrev four : Ring
four = ring_of four_state 4 0 0 1 0

abbrev two : Ring
two = record {
  machines = machine 0 0 ∷ machine 1 0 ∷ [];
  num_machines = 2;
  num_states = 4;
  variant = four_state;
}

sample-IsValid : IsValid sample
sample-IsValid = well_formed-IsValid sample refl

calm-IsValid : IsValid calm
calm-IsValid = well_formed-IsValid calm refl

sample-copying : sample.variant ≢ four_state
sample-copying e = cc

calm-copying : calm.variant ≢ four_state
calm-copying e = cc

calm-legitimate : (is_legitimate calm).0 ≡ true
unfolding is_legitimate count_privileges compute_privilege write_privilege
calm-legitimate = refl

-- the run of the sample: two moves
sample_run :
    ((converge_to_legitimate sample 10 [] 0).result ≡ pos 2)
    × ((converge_to_legitimate sample 2 [] 0).result ≡ minus_one)
unfolding converge_to_legitimate count_privileges compute_privilege write_privilege step
    step_three_state write_state
sample_run = (refl, refl)

converge_to_legitimate_example : Converged 4 0 (converge_to_legitimate sample 10 [] 0)
converge_to_legitimate_example =
    converge_to_legitimate-Converged sample 10 [] 0 sample-copying sample-IsValid (omega arith)

is_legitimate-step_example : (is_legitimate (step calm (pos 2)).1).0 ≡ true
is_legitimate-step_example = is_legitimate-step (pos 2) calm-copying calm-IsValid calm-legitimate

no_deadlock_example : 1 ≤ privileged sample 4
no_deadlock_example = no_deadlock sample-copying sample-IsValid

privileged-step-le_example : privileged (step sample (pos 1)).1 4 ≤ privileged sample 4
privileged-step-le_example = privileged-step-le (pos 1) sample-copying sample-IsValid

step-result_example : (step sample (pos 1)).0 ≡ expected_result sample (pos 1)
step-result_example = step-result sample (pos 1)

step-IsValid_example : IsValid (step sample (pos 1)).1
step-IsValid_example = step-IsValid (pos 1) sample-IsValid

synchronous_round_example :
    ((synchronous_round sample).0 ≡ pos (privileged sample 4))
    × AllMoved sample (synchronous_round sample).1
synchronous_round_example = synchronous_round-AllMoved sample-IsValid

four-legitimate : (is_legitimate four).0 ≡ true
unfolding is_legitimate count_privileges compute_privilege write_privilege
four-legitimate = refl

four_state-not_closed_example : (is_legitimate (step four (pos 1)).1).0 ≡ false
four_state-not_closed_example =
    four_state-not_closed refl (well_formed-IsValid four refl) (omega arith) refl four-legitimate

two_machines-stuck_example :
    ((id : ℤ) → (step two id).1 ≡ two) × ((converge_to_legitimate two 100 [] 0).result ≡ minus_one)
two_machines-stuck_example =
    two_machines-stuck 100 [] 0 refl (well_formed-IsValid two refl) refl (omega arith)

init-legitimate_example : (is_legitimate (init sample (pos 5) (pos 7) k_state).1).0 ≡ true
init-legitimate_example = init-legitimate sample 5 7 k_state (λ e. cc) refl
