-- ===== src/Byzantine/BenOrAgreed.antt =====
-- `benor_run` on a system that `benor_init` set up.
use mini_distributed_computi.Prelude.{
  ℕ, zero, suc, ◌+◌, ◌≤◌, ◌<◌, ◌≡◌, ◌⊎◌, refl, sym, ◌∙◌, ap, ltb, leb, if◌then◌else◌, Bool, true,
  false, ◌&&◌, not, List, [], ◌∷◌, Option, some, ℤ, pos, minus_one, eqb_ℤ_iff, arith, Bool-cases,
  inl, inr,
}
use mini_distributed_computi.Byzantine.BenOr.{
  FaultType, Process, System, is_correct, new_processes, init, decide_loop, exchanged, step,
  run_loop, ref_val, agreed, run,
}
use mini_distributed_computi.Byzantine.BenOrRun.{Together, IsUniform, run_loop-IsUniform, if-cases}

-- the loop is over
abbrev Stopped : System → Type 0
Stopped s = (s.agreement_reached ≡ true) ⊎ (s.max_rounds ≤ s.current_round)

-- a step ends the run or counts a round
abbrev Counts : System → Bool × System → Type 0
Counts s r =
    ((r.0 ≡ true) × (r.1.agreement_reached ≡ true))
    ⊎ ((r.0 ≡ false) × (r.1.current_round ≡ s.current_round + 1) × (r.1.max_rounds ≡ s.max_rounds))

step-Counts : (s : System) (coin : ℕ) → Counts s (step s coin).0
unfolding step
step-Counts s coin =
    if-cases (λ (r : (Bool × System) × ℕ). Counts s r.0) s.agreement_reached _ _
      (λ h. inl (refl, h))
      (λ running.
        if-cases (λ (r : (Bool × System) × ℕ). Counts s r.0) (leb s.max_rounds s.current_round) _ _
          (λ over. inl (refl, refl))
          (λ more.
            let o = decide_loop s.f s.current_round (exchanged s.n s.processes) coin in
            elim (Bool-cases (leb o.total_correct o.all_decided)) [
              | inl all ↦ inl (all, all)
              | inr some_left ↦ inr (some_left, refl, refl)
            ]))

-- the test of the loop
abbrev goes_on : System → Bool
goes_on s = not s.agreement_reached && ltb s.current_round s.max_rounds

run_loop-halts :
    (fuel : ℕ) (s : System) (coin : ℕ) → goes_on s ≡ false → run_loop fuel s coin ≡ (s, coin)
unfolding run_loop
run_loop-halts zero s coin h = refl
run_loop-halts (suc fuel) s coin h =
    ap
      (λ b.
        if b
        then (if (step s coin).0.0
            then ((step s coin).0.1, (step s coin).1)
            else run_loop fuel (step s coin).0.1 (step s coin).1)
        else (s, coin))
      h

-- what is left of the run after a step with the result `r`
abbrev rest_of : ℕ → (Bool × System) × ℕ → System × ℕ
rest_of fuel r = if r.0.0 then (r.0.1, r.1) else run_loop fuel r.0.1 r.1

run_loop-steps :
    (fuel : ℕ) (s : System) (coin : ℕ)
    → goes_on s ≡ true
    → run_loop (suc fuel) s coin ≡ rest_of fuel (step s coin)
unfolding run_loop
run_loop-steps fuel s coin h = ap (λ b. if b then rest_of fuel (step s coin) else (s, coin)) h

-- The loop stops with enough fuel, and more does not change the outcome.
abbrev Halts : ℕ → ℕ → System → ℕ → Type 0
Halts fuel more s coin =
    Stopped (run_loop fuel s coin).0 × (run_loop more s coin ≡ run_loop fuel s coin)

Halts-now : (fuel more : ℕ) (s : System) (coin : ℕ) → goes_on s ≡ false → Halts fuel more s coin
Halts-now fuel more s coin stop =
    let stopped : Stopped s = ground arith in
    rw (run_loop-halts fuel s coin stop, run_loop-halts more s coin stop) (stopped, refl)

rest_of-Halts :
    (s : System) (fuel more : ℕ) (r : (Bool × System) × ℕ)
    → Counts s r.0
    → s.max_rounds < s.current_round + suc fuel
    → s.max_rounds < s.current_round + suc more
    → (r.0.1.max_rounds < r.0.1.current_round + fuel
        → r.0.1.max_rounds < r.0.1.current_round + more
        → Halts fuel more r.0.1 r.1)
    → Stopped (rest_of fuel r).0 × (rest_of more r ≡ rest_of fuel r)
rest_of-Halts s fuel more r (inl (e, stop)) enough enough' later = rw e (inl stop, refl)
rest_of-Halts s fuel more r (inr (e, count, same)) enough enough' later =
    rw e (later (omega arith) (omega arith))

run_loop-Halts :
    (fuel more : ℕ) (s : System) (coin : ℕ)
    → s.max_rounds < s.current_round + fuel
    → s.max_rounds < s.current_round + more
    → Halts fuel more s coin
run_loop-Halts zero more s coin enough enough' = Halts-now zero more s coin (ground arith)
run_loop-Halts (suc fuel) zero s coin enough enough' =
    Halts-now (suc fuel) zero s coin (ground arith)
run_loop-Halts (suc fuel) (suc more) s coin enough enough' = elim (Bool-cases (goes_on s)) [
  | inr stop ↦ Halts-now (suc fuel) (suc more) s coin stop
  | inl go ↦
      rw (run_loop-steps fuel s coin go, run_loop-steps more s coin go)
        (rest_of-Halts s fuel more (step s coin) (step-Counts s coin) enough enough'
          (λ low low'. run_loop-Halts fuel more (step s coin).0.1 (step s coin).1 low low'))
]

pub Together-agreed :
    (done : Bool) (x ref : ℤ) (ps : List Process)
    → ref ≡ x
    → Together done x ps
    → agreed ref ps ≡ true
unfolding agreed
Together-agreed done x ref [] e all = refl
Together-agreed done x ref (p ∷ ps) e (first, all) = elim (Bool-cases (is_correct p.fault_type)) [
  | inr bad ↦ rw bad (Together-agreed done x ref ps e all)
  | inl good ↦
      rw (good, (eqb_ℤ_iff p.decision ref).1 ((first good).1 ∙ sym e))
        (Together-agreed done x ref ps e all)
]

-- without correct processes there is nothing to agree on
Together-ref_val :
    (done : Bool) (x : ℤ) (ps : List Process)
    → Together done x ps
    → (ref_val ps ≡ x) ⊎ ((r : ℤ) → agreed r ps ≡ true)
unfolding ref_val agreed
Together-ref_val done x [] all = inr (λ r. refl)
Together-ref_val done x (p ∷ ps) (first, all) = elim (Bool-cases (is_correct p.fault_type)) [
  | inl good ↦ rw good (inl (first good).1)
  | inr bad ↦ rw bad (Together-ref_val done x ps all)
]

IsUniform-agreed : (s : System) → IsUniform s → agreed (ref_val s.processes) s.processes ≡ true
IsUniform-agreed s ok =
    let (done, x, all) = ok.together in
    elim (Together-ref_val done x s.processes all) [
      | inl e ↦ Together-agreed done x (ref_val s.processes) s.processes e all
      | inr nobody ↦ nobody (ref_val s.processes)
    ]

new_processes-Together :
    (values : Option (List ℤ)) (faults : Option (List FaultType)) (left i : ℕ)
    → Together false minus_one (new_processes values faults left i)
unfolding new_processes
new_processes-Together values faults zero i = tt
new_processes-Together values faults (suc left) i =
    (λ h. (refl, refl), new_processes-Together values faults left (suc i))

-- The run reports agreement, and stops within its rounds: it reaches an agreement or the bound.
-- With more fuel its loop returns the same.
pub record IsSafe (s : System) (coin : ℕ) : Type 0 where
  pub agreement : (run s coin).0.agreement_holds ≡ true
  pub stops :
      ((run s coin).1.agreement_reached ≡ true)
      ⊎ ((run s coin).1.max_rounds ≤ (run s coin).1.current_round)
  pub round_count : (run s coin).0.num_rounds ≤ (run s coin).1.max_rounds
  pub enough_fuel : (fuel : ℕ) → s.max_rounds < fuel → (run_loop fuel s coin).0 ≡ (run s coin).1

IsUniform-IsSafe : (s : System) (coin : ℕ) → s.current_round ≡ 0 → IsUniform s → IsSafe s coin
unfolding run
IsUniform-IsSafe s coin start ok =
    let final = run_loop-IsUniform (s.max_rounds + 1) s coin ok in
    let (stops, _) =
      run_loop-Halts (s.max_rounds + 1) (s.max_rounds + 1) s coin (omega arith) (omega arith) in
    record {
      agreement = IsUniform-agreed (run_loop (s.max_rounds + 1) s coin).0 final;
      stops = stops;
      round_count = final.few_rounds;
      enough_fuel = λ fuel enough.
          ap (λ (r : System × ℕ). r.0)
            (run_loop-Halts (s.max_rounds + 1) fuel s coin (omega arith) (omega arith)).1;
    }

-- `benor_init` accepts 1 to 16 processes, any number of which are faulty, and from there
-- `benor_run` stops and reports agreement, whatever the state of the generator: the decisions of the
-- correct processes are equal, with -1 for one that has not decided.
pub run-IsSafe :
    (n f seed : ℕ) (values : Option (List ℤ)) (faults : Option (List FaultType))
    → 0 < n
    → n ≤ 16
    → (s : System) × (init (pos n) (pos f) values faults seed ≡ some (s, seed)) × IsSafe s seed
unfolding init
run-IsSafe n f seed values faults some_process few =
    let s : System = record {
      n = n;
      f = f;
      processes = new_processes values faults n 0;
      max_rounds = 100;
      current_round = 0;
      agreement_reached = false;
      coin_seed = seed;
    } in
    let all = new_processes-Together values faults n 0 in
    let low : ltb n 1 ≡ false = ground arith in
    let high : leb n 16 ≡ true = ground arith in
    (
      s,
      rw (low, high) refl,
      IsUniform-IsSafe s seed refl (record {
        undecided = λ h. all;
        together = (false, minus_one, all);
        few_rounds = omega arith;
      }),
    )
