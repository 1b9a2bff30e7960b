-- ===== src/Byzantine/Agreed.antt =====
-- `phase_king_run` on a system that `phase_king_init` set up.
use mini_distributed_computi.Prelude.{
  ℕ, zero, suc, ◌+◌, ◌*◌, ◌≤◌, ◌<◌, ◌≡◌, refl, sym, ◌∙◌, ap, true, false, List, [], ◌∷◌, length,
  get_or, Option, some, ℤ, pos, eqb_ℤ_iff, arith,
}
use native.Mathlib.Nat.{mod-lt}
use mini_distributed_computi.Byzantine.King.{
  Process, System, schedule, new_processes, accepts_sizes, init, run_loop, all_terminated,
  all_agree, ref_decision, run,
}
use mini_distributed_computi.Byzantine.KingRun.{
  Unanimous, choice, Ready, Decided, run_loop-Ended, choice-Unanimous,
}

schedule-lt : (n left k i : ℕ) → 0 < n → get_or (schedule n left k) i 0 < n
unfolding schedule
schedule-lt n zero k i some_process = some_process
schedule-lt n (suc left) k zero some_process = grind (arith, mod-lt)
schedule-lt n (suc left) k (suc i) some_process = schedule-lt n left (suc k) i some_process

length-new_processes :
    (values : Option (List ℤ)) (left i : ℕ) → length (new_processes values left i) ≡ left
unfolding new_processes
length-new_processes values zero i = refl
length-new_processes values (suc left) i = ap suc (length-new_processes values left (suc i))

Decided-all_terminated : (x : ℤ) (ps : List Process) → Decided x ps → all_terminated ps ≡ true
unfolding all_terminated
Decided-all_terminated x [] all = refl
Decided-all_terminated x (p ∷ ps) (done, _, all) = rw done (Decided-all_terminated x ps all)

Decided-all_agree :
    (x ref : ℤ) (ps : List Process) → ref ≡ x → Decided x ps → all_agree ref ps ≡ true
unfolding all_agree
Decided-all_agree x ref [] e all = refl
Decided-all_agree x ref (p ∷ ps) e (_, first, all) =
    rw ((eqb_ℤ_iff p.decision ref).1 (first ∙ sym e)) (Decided-all_agree x ref ps e all)

Decided-ref_decision :
    (x : ℤ) (ps : List Process) → 0 < length ps → Decided x ps → ref_decision ps ≡ x
Decided-ref_decision x [] nonempty all = absurd (omega arith)
Decided-ref_decision x (p ∷ ps) nonempty (_, first, all) = first

-- The run ends with all processes on one value, that of the first phase, which is the value of all
-- processes if they start with one; more fuel does not change the run.
pub record Agreed (s : System) : Type 0 where
  pub agreement : (run s).0.agreement_holds ≡ true
  pub termination : (run s).0.termination_holds ≡ true
  pub round_count : (run s).0.num_rounds ≡ (s.f + 1) * 2
  pub value : (run s).0.decided_value ≡ choice s
  pub validity : (v : ℤ) → Unanimous v s.processes → (run s).0.decided_value ≡ v
  pub enough_fuel : (fuel : ℕ) → s.f < fuel → run_loop fuel s ≡ (run s).1

Ready-Agreed : (s : System) → 0 < s.n → s.current_phase ≡ 0 → Ready s → Agreed s
unfolding run
Ready-Agreed s some_process start ready =
    let t = run_loop (s.f + 2) s in
    let (ended, same) = run_loop-Ended (s.f + 2) (s.f + 2) s ready (omega arith) (omega arith) in
    let ref =
      Decided-ref_decision (choice s) t.processes (omega (arith, ended.same_size)) ended.decided in
    record {
      agreement =
          Decided-all_agree (choice s) (ref_decision t.processes) t.processes ref ended.decided;
      termination = Decided-all_terminated (choice s) t.processes ended.decided;
      round_count = ap (λ k. k * 2) ended.last_phase;
      value = ref;
      validity = λ v all. ref ∙ choice-Unanimous s v ready all;
      enough_fuel =
          λ fuel enough. (run_loop-Ended (s.f + 2) fuel s ready (omega arith) (omega arith)).1;
    }

-- `phase_king_init` accepts 1 to 16 processes with fewer than a quarter faulty, and then
-- `phase_king_run` ends after 2 * (f + 1) rounds: all processes have decided, on one value, which
-- is that of all processes if they start with one. The loop ends with any fuel above `f`.
pub run-Agreed :
    (n f : ℕ) (values : Option (List ℤ))
    → 0 < n
    → n ≤ 16
    → 4 * f < n
    → (s : System) × (init (pos n) (pos f) values ≡ some s) × Agreed s
unfolding init
run-Agreed n f values some_process few most_correct =
    let ok : accepts_sizes (pos n) (pos f) ≡ true = ground arith in
    let s : System = record {
      n = n;
      f = f;
      current_phase = 0;
      processes = new_processes values n 0;
      king_schedule = schedule n (f + 1) 0;
      agreement_reached = false;
    } in
    (
      s,
      rw ok refl,
      Ready-Agreed s some_process refl (record {
        same_size = length-new_processes values n 0;
        kings = λ k. schedule-lt n (f + 1) 0 k some_process;
        running = refl;
        phases_left = omega arith;
      }),
    )
