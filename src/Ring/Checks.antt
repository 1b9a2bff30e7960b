-- ===== src/Ring/Checks.antt =====
-- The executable checks of `src/dijkstra_ring.c`: closure, convergence, equality of two rings.
use native.Mathlib.Nat.{add-zero}
use mini_distributed_computi.Prelude.{
  ℕ, zero, suc, ◌+◌, ◌<◌, ◌≤◌, ◌≡◌, ◌≢◌, ◌↔◌, refl, ap, sym, ◌∙◌, arith, pos, true, Bool-cases, inl,
  inr, ℕ_discrete, [],
}
use mini_distributed_computi.Ring.Config.{Variant, three_state, four_state, k_state, Ring, state_at}
use mini_distributed_computi.Ring.Privilege.{is_legitimate}
use mini_distributed_computi.Ring.Run.{
  equals, same_states, same_variant, closure_loop, verify_closure, convergence_loop,
  verify_convergence,
}
use mini_distributed_computi.Ring.Valid.{IsValid, SameStates, SameStates-IsValid, not_null}
use mini_distributed_computi.Ring.Count.{privileged, privileged-SameStates, count_privileges_lem}
use mini_distributed_computi.Ring.Closure.{is_legitimate_iff, is_legitimate-step}
use mini_distributed_computi.Ring.Convergence.{converge_to_legitimate-Converged}

closure_loop-true :
    (f i : ℕ) (c : Ring)
    → c.variant ≢ four_state
    → IsValid c
    → (is_legitimate c).0 ≡ true
    → closure_loop f i c ≡ true
unfolding closure_loop
closure_loop-true zero i c ne w h = refl
closure_loop-true (suc f) i c ne w h =
    ground (arith, closure_loop-true f (i + 1) c ne w h, is_legitimate-step (pos i) ne w h)

-- the ring that `ring_is_legitimate` leaves
counted-SameStates : {c : Ring} → IsValid c → SameStates c (is_legitimate c).1
unfolding is_legitimate
counted-SameStates w = (count_privileges_lem w).1.same

pub is_legitimate-SameStates :
    {c c' : Ring} → SameStates c c' → IsValid c → (is_legitimate c').0 ≡ (is_legitimate c).0
is_legitimate-SameStates {c} {c'} same w =
    let i = is_legitimate_iff w in
    let i' = is_legitimate_iff (SameStates-IsValid same w) in
    ground
      (arith, i, i', privileged-SameStates same c'.num_machines, ap (privileged c) same.machines_eq)

-- On a well-formed 3-state or K-state ring `ring_verify_closure` holds exactly if the ring is
-- legitimate: it never finds a move that breaks legitimacy.
pub verify_closure-copying :
    {c : Ring} → c.variant ≢ four_state → IsValid c → verify_closure c ≡ (is_legitimate c).0
unfolding verify_closure
verify_closure-copying {c} ne w =
    let same = counted-SameStates w in
    elim (Bool-cases (is_legitimate c).0) [
      | inr no_more ↦ rw (not_null w, no_more) refl
      | inl legit ↦
          rw (not_null w, legit)
            (closure_loop-true c.num_machines 0 (is_legitimate c).1
              (λ e. ne (sym same.variant_eq ∙ e)) (SameStates-IsValid same w)
              (is_legitimate-SameStates same w ∙ legit))
    ]

convergence_loop-all :
    (f : ℕ) (c : Ring) (max_depth verified : ℕ)
    → c.variant ≢ four_state
    → IsValid c
    → c.num_machines < max_depth
    → verified + f ≤ c.num_machines
    → convergence_loop f c max_depth verified ≡ verified + f
unfolding convergence_loop
convergence_loop-all zero c max_depth verified ne w h le = rw add-zero
convergence_loop-all (suc f) c max_depth verified ne w h le =
    let d = converge_to_legitimate-Converged c max_depth [] 0 ne w h in
    ground (arith, d.returned, convergence_loop-all f c max_depth (verified + 1) ne w h)

-- On a well-formed 3-state or K-state ring with `max_depth` above the number of machines,
-- `ring_verify_convergence` reports every branch as convergent.
pub verify_convergence-copying :
    {c : Ring} (max_depth : ℕ)
    → c.variant ≢ four_state
    → IsValid c
    → c.num_machines < max_depth
    → verify_convergence c max_depth ≡ pos c.num_machines
unfolding verify_convergence
verify_convergence-copying {c} max_depth ne w h =
    rw (not_null w) (
      ap pos (convergence_loop-all c.num_machines c max_depth 0 ne w h (omega arith) ∙ omega arith))

same_states_iff :
    (f i : ℕ) (a b : Ring)
    → (same_states f i a b ≡ true) ↔ ((j : ℕ) → i ≤ j → j < i + f → state_at a j ≡ state_at b j)
unfolding same_states
same_states_iff zero i a b = (λ _ j l u. absurd (omega arith), λ _. refl)
same_states_iff (suc f) i a b =
    let ih = same_states_iff f (i + 1) a b in
    (
      λ e j l u. elim (ℕ_discrete i j) [
        | yes here ↦ rw (← here) (ground arith)
        | no later ↦ ih.0 (ground arith) j (omega arith) (omega arith)
      ],
      λ h.
          let rest = ih.1 (λ j l u. h j (omega arith) (omega arith)) in
          ground (arith, h i (omega arith) (omega arith), rest),
    )

same_variant_iff : (u v : Variant) → (same_variant u v ≡ true) ↔ (u ≡ v)
same_variant_iff three_state v = ground arith
same_variant_iff four_state v = ground arith
same_variant_iff k_state v = ground arith

-- Two rings agree in all but the machines' marks.
pub record Agree (a b : Ring) : Type 0 where
  pub machines_eq : a.num_machines ≡ b.num_machines
  pub states_eq : a.num_states ≡ b.num_states
  pub variant_eq : a.variant ≡ b.variant
  pub state_eq : (j : ℕ) → j < a.num_machines → state_at a j ≡ state_at b j

-- `ring_equals` holds exactly of rings of the same size, number of states and variant whose
-- machines are in the same states.
pub equals_iff : (a b : Ring) → (equals a b ≡ true) ↔ Agree a b
unfolding equals
equals_iff a b =
    let states = same_states_iff a.num_machines 0 a b in
    let variant = same_variant_iff a.variant b.variant in
    (
      λ e. record {
        machines_eq = ground arith;
        states_eq = ground arith;
        variant_eq = ground (arith, variant);
        state_eq = λ j h. states.0 (ground arith) j (omega arith) (omega arith);
      },
      λ h. ground (
        arith,
        h.machines_eq,
        h.states_eq,
        variant.1 h.variant_eq,
        states.1 (λ j l u. h.state_eq j (omega arith)),
      ),
    )
