-- ===== src/Ring/Convergence.antt =====
-- Runs of a copying ring under the central daemon of `ring_converge_to_legitimate`, which always
-- picks the first privileged machine.
use mini_distributed_computi.Prelude.{
  minus_one, ℕ, zero, suc, ◌+◌, ◌-◌, ◌≤◌, ◌<◌, ◌≡◌, ◌≢◌, refl, sym, ◌==◌, arith, pos, true, false,
  Bool-cases, inl, inr, ◌∙◌, fun_ext, ap, ℕ_discrete, Option-cases, subst, none, some, List,
}
use mini_distributed_computi.Ring.Config.{four_state, Ring, state_at, write_state, privilege_cached}
use mini_distributed_computi.Ring.Privilege.{
  compute_privilege, is_privileged, count_privileges, is_legitimate,
}
use mini_distributed_computi.Ring.Step.{step}
use mini_distributed_computi.Ring.Run.{
  StepRecord, record_step, step_record, outcome, find_privileged, Outcome, converge_loop,
  converge_to_legitimate,
}
use mini_distributed_computi.Ring.Tokens.{update, need, need-le, need-bottom-lt, need-copy-lt}
use mini_distributed_computi.Ring.Valid.{
  IsValid, SameStates, not_null, state_at-write_state, SameStates-IsValid,
  compute_privilege-SameStates,
}
use mini_distributed_computi.Ring.Count.{
  Counted, privileged, privileged-SameStates, count_privileges_lem,
}
use mini_distributed_computi.Ring.Guards.{step-IsValid, Moved, moved, step-SameShape}
use mini_distributed_computi.Ring.Closure.{
  last, weight_above, weight_bottom, privileged-eq-tokens, no_deadlock, next_state-ne,
  is_legitimate_iff,
}

-- The first machine from `i` on whose cached privilege is set.
record Found (c : Ring) (f i j : ℕ) : Type 0 where
  from : i ≤ j
  below : j < i + f
  set_at : is_privileged (privilege_cached c j) ≡ true
  first : (k : ℕ) → i ≤ k → k < j → is_privileged (privilege_cached c k) ≡ false

find_privileged-Found :
    (f i : ℕ) (c : Ring) (j : ℕ) → find_privileged f i c ≡ some j → Found c f i j
unfolding find_privileged
find_privileged-Found zero i c j e = cc
find_privileged-Found (suc f) i c j e = elim (Bool-cases (is_privileged (privilege_cached c i))) [
  | inl hit ↦
      let here : i ≡ j = ground arith in
      record {
        from = omega arith;
        below = omega arith;
        set_at = rw (← here) hit;
        first = λ k a b. absurd (omega arith);
      }
  | inr miss ↦
      let ih = find_privileged-Found f (i + 1) c j (ground arith) in
      record {
        from = omega (arith, ih.from);
        below = omega (arith, ih.below);
        set_at = ih.set_at;
        first = λ k a b. elim (ℕ_discrete i k) [
          | yes same ↦ rw (← same) miss
          | no other ↦ ih.first k (omega arith) b
        ];
      }
]

find_privileged-none :
    (f i : ℕ) (c : Ring)
    → find_privileged f i c ≡ none
    → (k : ℕ) → i ≤ k
    → k < i + f
    → is_privileged (privilege_cached c k) ≡ false
unfolding find_privileged
find_privileged-none zero i c e k a b = absurd (omega arith)
find_privileged-none (suc f) i c e k a b =
    elim (Bool-cases (is_privileged (privilege_cached c i))) [
      | inl hit ↦ ground arith
      | inr miss ↦ elim (ℕ_discrete i k) [
        | yes same ↦ rw (← same) miss
        | no other ↦ find_privileged-none f (i + 1) c (ground arith) k (omega arith) (omega arith)
      ]
    ]

pub privileged_of_none :
    (c : Ring) (m : ℕ)
    → ((k : ℕ) → k < m → is_privileged (compute_privilege c (pos k)) ≡ false)
    → privileged c m ≡ 0
unfolding privileged
privileged_of_none c zero h = refl
privileged_of_none c (suc m) h =
    ground (arith, privileged_of_none c m (λ k p. h k (omega arith)), h m (omega arith))

-- The states agree below the first privileged machine.
prefix_agrees :
    {c : Ring} (i : ℕ)
    → c.variant ≢ four_state
    → IsValid c
    → i < c.num_machines
    → ((k : ℕ) → k < suc i → is_privileged (compute_privilege c (pos k)) ≡ false)
    → (j : ℕ) → j ≤ i
    → state_at c j ≡ state_at c 0
prefix_agrees {c} i ne w h first zero le = refl
prefix_agrees {c} i ne w h first (suc j) le = ground (
  arith,
  prefix_agrees i ne w h first j (omega arith),
  first (suc j) (omega arith),
  weight_above j c.variant refl ne w (omega arith),
)

need-ext : (s t : ℕ → ℕ) (m : ℕ) → ((j : ℕ) → s j ≡ t j) → need s m ≡ need t m
need-ext s t m h = ap (λ f. need f m) (fun_ext h)

need-update :
    {c : Ring} (i : ℕ)
    → c.variant ≢ four_state
    → IsValid c
    → i < c.num_machines
    → ((k : ℕ) → k < i → is_privileged (compute_privilege c (pos k)) ≡ false)
    → privileged c c.num_machines ≢ 1
    → (mv : Moved c i) → need (update (state_at c) i mv.value) (last c) < need (state_at c) (last c)
need-update {c} zero ne w h first many mv =
    let (e, v) = mv.at_bottom refl in
    need-bottom-lt (state_at c) mv.value (last c) (λ one. many (privileged-eq-tokens ne w ∙ one)) e
      (rw v (next_state-ne c (state_at c 0) w.enough (w.bounded 0 h))) (omega arith)
need-update {c} (suc i) ne w h first many mv =
    let (differs, v) = mv.above i refl in
    rw v (
      need-copy-lt (state_at c) i (last c) (λ one. many (privileged-eq-tokens ne w ∙ one))
        (ground (arith, first 0 (omega arith), weight_bottom c.variant refl ne w)) (omega arith)
        (prefix_agrees i ne w (omega arith) first) differs)

-- While two machines or more are privileged, a move of the first one brings the ring nearer to a
-- legitimate one.
need-step-lt :
    {c : Ring} (i : ℕ)
    → c.variant ≢ four_state
    → IsValid c
    → i < c.num_machines
    → is_privileged (compute_privilege c (pos i)) ≡ true
    → ((k : ℕ) → k < i → is_privileged (compute_privilege c (pos k)) ≡ false)
    → privileged c c.num_machines ≢ 1
    → need (state_at (step c (pos i)).1) (last c) < need (state_at c) (last c)
need-step-lt {c} i ne w h p first many =
    let mv = moved i ne h p in
    omega (
      arith,
      need-update i ne w h first many mv,
      ap (λ r. need (state_at r) (last c)) mv.after,
      need-ext (state_at (write_state c i mv.value)) (update (state_at c) i mv.value) (last c)
          (λ j. state_at-write_state c i mv.value j (omega (arith, w.sized))),
    )

-- How the loop ends: after `taken` moves, in a well-formed ring with one privilege.
pub record Converged (bound start : ℕ) (out : Outcome) : Type 0 where
  pub taken : ℕ
  pub returned : out.result ≡ pos (start + taken)
  pub few : taken ≤ bound
  pub valid : IsValid out.ring
  pub legitimate : (is_legitimate out.ring).0 ≡ true

Converged-later :
    {b b' s : ℕ} {out : Outcome} → b < b' → Converged b (s + 1) out → Converged b' s out
Converged-later {s} h d = record {
  taken = suc d.taken;
  returned = d.returned ∙ ap pos (omega arith);
  few = omega (arith, d.few);
  valid = d.valid;
  legitimate = d.legitimate;
}

-- One round of the loop, in its two outcomes.
converge_loop-stop :
    (left start : ℕ) (c : Ring) (history : List StepRecord) (cap : ℕ)
    → (count_privileges c).0 ≡ pos 1
    → converge_loop (suc left) start c history cap
      ≡ outcome (pos start) (count_privileges c).1 history
unfolding converge_loop
converge_loop-stop left start c history cap e = rw e

converge_loop-move :
    (left start : ℕ) (c : Ring) (history : List StepRecord) (cap k i : ℕ)
    → (count_privileges c).0 ≡ pos k
    → k ≢ 0
    → k ≢ 1
    → find_privileged c.num_machines 0 (count_privileges c).1 ≡ some i
    → converge_loop (suc left) start c history cap
      ≡ converge_loop left
          (start + 1)
          (step (count_privileges c).1 (pos i)).1
          (record_step history cap
            (step_record (count_privileges c).1 (step (count_privileges c).1 (pos i)).1 start i))
          cap
unfolding converge_loop
converge_loop-move left start c history cap k i e ne0 ne1 f =
    let a : (k == 1) ≡ false = ground arith in
    let b : (k == 0) ≡ false = ground arith in rw (e, a, b, f)

-- Of two privileged machines or more the search finds the first.
find_counted :
    {c : Ring}
    → IsValid c
    → privileged c c.num_machines ≢ 0
    → (i : ℕ) × (find_privileged c.num_machines 0 (count_privileges c).1 ≡ some i)
      × Found (count_privileges c).1 c.num_machines 0 i
find_counted {c} w some_one =
    elim (Option-cases (find_privileged c.num_machines 0 (count_privileges c).1)) [
      | inr (i, e) ↦ (i, e, find_privileged-Found c.num_machines 0 (count_privileges c).1 i e)
      | inl e ↦ absurd (
          some_one (
            privileged_of_none c c.num_machines λ k h.
              subst (λ p. is_privileged p ≡ false)
                ((count_privileges_lem w).1.cached k (omega arith) (omega arith))
                (find_privileged-none c.num_machines 0 (count_privileges c).1 e k (omega arith)
                  (omega arith))))
    ]

-- After such a move fewer moves are left.
need-round-lt :
    {c : Ring} (i : ℕ)
    → c.variant ≢ four_state
    → IsValid c
    → privileged c c.num_machines ≢ 1
    → Found (count_privileges c).1 c.num_machines 0 i
    → need (state_at (step (count_privileges c).1 (pos i)).1) (last c) < need (state_at c) (last c)
need-round-lt {c} i ne w many found =
    let counted = (count_privileges c).1 in
    let all = (count_privileges_lem w).1 in
    let same = all.same in
    let guard = λ (k : ℕ) (h : k < c.num_machines).
      all.cached k (omega arith) (omega arith) ∙ sym (compute_privilege-SameStates same (pos k)) in
    omega (
      arith,
      need-step-lt {c = counted} i (λ e. ne (sym same.variant_eq ∙ e)) (SameStates-IsValid same w)
          (omega (arith, same.machines_eq, found.below))
          (subst (λ p. is_privileged p ≡ true) (guard i (omega (arith, found.below))) found.set_at)
          (λ k h.
            subst (λ p. is_privileged p ≡ false) (guard k (omega (arith, found.below)))
              (found.first k (omega arith) h))
          (λ e. many (
            ap (privileged c) (sym same.machines_eq)
            ∙ sym (privileged-SameStates same counted.num_machines)
            ∙ e)),
      ap (λ (n : ℕ). need (state_at (step counted (pos i)).1) (n - 1)) same.machines_eq,
      ap (λ (n : ℕ). need (state_at counted) (n - 1)) same.machines_eq,
      need-ext (state_at counted) (state_at c) (last c) same.state_eq,
    )

converge_loop-Converged :
    (left start : ℕ) (c : Ring) (history : List StepRecord) (cap : ℕ)
    → c.variant ≢ four_state
    → IsValid c
    → need (state_at c) (last c) < left
    → Converged (need (state_at c) (last c)) start (converge_loop left start c history cap)
converge_loop-Converged zero start c history cap ne w h = absurd (omega arith)
converge_loop-Converged (suc left) start c history cap ne w h =
    elim (ℕ_discrete (privileged c c.num_machines) 1) [
      | yes one ↦ rw (converge_loop-stop left start c history cap (counts.0 ∙ ap pos one)) (record {
        taken = 0;
        returned = ap pos (omega arith);
        few = omega arith;
        valid = SameStates-IsValid same w;
        legitimate =
            (is_legitimate_iff (SameStates-IsValid same w)).1
              (privileged-SameStates same _ ∙ ap (privileged c) same.machines_eq ∙ one);
      })
      | no many ↦
          let (i, e, found) = find_counted w some_one in
          let next = (step (count_privileges c).1 (pos i)).1 in
          let shape = step-SameShape (count_privileges c).1 (pos i) in
          let nearer = need-round-lt i ne w many found in
          let same_last =
            ap (λ (n : ℕ). need (state_at next) (n - 1)) (shape.machines_eq ∙ same.machines_eq) in
          rw (converge_loop-move left start c history cap _ i counts.0 some_one many e) (
            Converged-later (omega (arith, nearer, same_last)) (
              converge_loop-Converged left (start + 1) next
                (record_step history cap (step_record (count_privileges c).1 next start i)) cap
                (λ v. ne (sym same.variant_eq ∙ sym shape.variant_eq ∙ v))
                (step-IsValid (pos i) (SameStates-IsValid same w))
                (omega (arith, nearer, same_last))))
    ]
  where
    counts :
        ((count_privileges c).0 ≡ pos (privileged c c.num_machines))
        × Counted c c.num_machines 0 (count_privileges c).1
    counts = count_privileges_lem w

    same : SameStates c (count_privileges c).1
    same = counts.1.same

    some_one : privileged c c.num_machines ≢ 0
    some_one = omega (arith, no_deadlock ne w)

-- From any well-formed ring of the 3-state or K-state variant, whatever its states, a call of
-- `ring_converge_to_legitimate` with more than `num_machines` steps returns the number of moves it
-- made, at most `num_machines` of them, and leaves a well-formed ring that is legitimate.
pub converge_to_legitimate-Converged :
    (c : Ring) (max_steps : ℕ) (history : List StepRecord) (cap : ℕ)
    → c.variant ≢ four_state
    → IsValid c
    → c.num_machines < max_steps
    → Converged c.num_machines 0 (converge_to_legitimate c max_steps history cap)
unfolding converge_to_legitimate
converge_to_legitimate-Converged c max_steps history cap ne w h = rw (not_null w) (record {
  taken = d.taken;
  returned = d.returned;
  few = omega (arith, d.few, need-le (state_at c) (last c));
  valid = d.valid;
  legitimate = d.legitimate;
})
  where
    d : Converged (need (state_at c) (last c)) 0 (converge_loop max_steps 0 c history cap)
    d =
        converge_loop-Converged max_steps 0 c history cap ne w
          (omega (arith, need-le (state_at c) (last c)))

-- With no privilege at all the run fails, however many steps it is given.
pub converge_to_legitimate-none :
    {c : Ring}
    → IsValid c
    → (max_steps : ℕ) (history : List StepRecord) (cap : ℕ) → privileged c c.num_machines ≡ 0
    → (converge_to_legitimate c max_steps history cap).result ≡ minus_one
unfolding converge_to_legitimate
converge_to_legitimate-none w zero history cap h = rw (not_null w) refl
converge_to_legitimate-none {c} w (suc k) history cap h =
    rw (not_null w, (count_privileges_lem w).0, h) refl
