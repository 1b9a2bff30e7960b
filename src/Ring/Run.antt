-- ===== src/Ring/Run.antt =====
-- src/dijkstra_ring.c, L4 and L5: runs under the central daemon, and the executable checks of
-- closure and convergence. `ring_clone` copies a ring, which the model need not.
use mini_distributed_computi.Prelude.{
  ℕ, zero, suc, ◌+◌, ◌==◌, ltb, if◌then◌else◌, Bool, true, false, not, List, [], set, Option, none,
  some, ℤ, pos, minus_one, eqb_ℤ, nonneg,
}
use mini_distributed_computi.Ring.Config.{
  Privilege, Variant, three_state, four_state, k_state, Ring, is_null, state_at, privilege_cached,
}
use mini_distributed_computi.Ring.Privilege.{is_privileged, count_privileges, is_legitimate}
use mini_distributed_computi.Ring.Step.{step}

-- `ring_step_record_t`
pub record StepRecord : Type 0 where
  pub step_number : ℕ
  pub machine_id : ℕ
  pub old_state : ℕ
  pub new_state : ℕ
  pub privilege : Privilege

-- the first machine from `i` on whose cached privilege is set, among the next `f`
unfoldable pub find_privileged : ℕ → ℕ → Ring → Option ℕ
find_privileged zero i c = none
find_privileged (suc f) i c =
    let rest = find_privileged f (i + 1) c in
    if is_privileged (privilege_cached c i) then some i else rest

-- `history[step] = …` if `history && step < hist_cap`; a NULL history is one with `hist_cap` 0
abbrev pub record_step : List StepRecord → ℕ → StepRecord → List StepRecord
record_step history hist_cap r =
    if ltb r.step_number hist_cap then set history r.step_number r else history

abbrev pub step_record : Ring → Ring → ℕ → ℕ → StepRecord
step_record before after step_number i = record {
  step_number = step_number;
  machine_id = i;
  old_state = state_at before i;
  new_state = state_at after i;
  privilege = privilege_cached before i;
}

pub record Outcome : Type 0 where
  pub result : ℤ
  pub ring : Ring
  pub history : List StepRecord

abbrev pub outcome : ℤ → Ring → List StepRecord → Outcome
outcome r c h = record { result = r; ring = c; history = h }

-- The loop of `ring_converge_to_legitimate`; the first argument is `max_steps - step`. With no
-- cached privilege in a round of two or more the source would loop; `find_privileged` then finds one.
unfoldable pub converge_loop : ℕ → ℕ → Ring → List StepRecord → ℕ → Outcome
unfolding find_privileged
converge_loop zero step_number c history hist_cap = outcome minus_one c history
converge_loop (suc left) step_number c history hist_cap =
    let counted = (count_privileges c).1 in
    let rest = λ (i : ℕ).
      converge_loop left (step_number + 1) (step counted (pos i)).1
        (record_step history hist_cap (step_record counted (step counted (pos i)).1 step_number i))
        hist_cap in
    if eqb_ℤ (count_privileges c).0 (pos 1)
    then outcome (pos step_number) counted history
    else (if eqb_ℤ (count_privileges c).0 (pos 0)
        then outcome minus_one counted history
        else elim (find_privileged c.num_machines 0 counted) [
          | none ↦ outcome minus_one counted history
          | some i ↦ rest i
        ])

-- `ring_converge_to_legitimate`
unfoldable pub converge_to_legitimate : Ring → ℕ → List StepRecord → ℕ → Outcome
unfolding converge_loop
converge_to_legitimate c max_steps history hist_cap =
    if is_null c.machines
    then outcome minus_one c history
    else converge_loop max_steps 0 c history hist_cap

-- the states of the first `f` machines from `i` on agree
unfoldable pub same_states : ℕ → ℕ → Ring → Ring → Bool
same_states zero i a b = true
same_states (suc f) i a b =
    let rest = same_states f (i + 1) a b in
    if not (state_at a i == state_at b i) then false else rest

abbrev pub same_variant : Variant → Variant → Bool
same_variant three_state three_state = true
same_variant four_state four_state = true
same_variant k_state k_state = true
same_variant _ _ = false

-- `ring_equals`
unfoldable pub equals : Ring → Ring → Bool
unfolding same_states
equals a b =
    if not (a.num_machines == b.num_machines)
    then false
    else if not (a.num_states == b.num_states)
    then false
    else if not (same_variant a.variant b.variant)
    then false
    else same_states a.num_machines 0 a b

-- the loop of `ring_verify_closure` from machine `i` on
unfoldable pub closure_loop : ℕ → ℕ → Ring → Bool
closure_loop zero i c = true
closure_loop (suc f) i c =
    let rest = closure_loop f (i + 1) c in
    if is_privileged (privilege_cached c i)
    then (if not (is_legitimate (step c (pos i)).1).0 then false else rest)
    else rest

-- `ring_verify_closure`
unfoldable pub verify_closure : Ring → Bool
unfolding closure_loop
verify_closure c =
    if is_null c.machines
    then false
    else if not (is_legitimate c).0
    then false
    else closure_loop c.num_machines 0 (is_legitimate c).1

-- the loop of `ring_verify_convergence`, with `f` branches left
unfoldable pub convergence_loop : ℕ → Ring → ℕ → ℕ → ℕ
convergence_loop zero c max_depth verified = verified
convergence_loop (suc f) c max_depth verified =
    let rest = convergence_loop f c max_depth (
      if nonneg (converge_to_legitimate c max_depth [] 0).result then verified + 1 else verified) in
    if ltb verified max_depth then rest else verified

-- `ring_verify_convergence`
unfoldable pub verify_convergence : Ring → ℕ → ℤ
unfolding convergence_loop
verify_convergence c max_depth =
    if is_null c.machines then minus_one else pos (convergence_loop c.num_machines c max_depth 0)
