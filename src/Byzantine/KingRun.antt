-- ===== src/Byzantine/KingRun.antt =====
-- A run of the phase king protocol ends, and all processes decide one value.
use mini_distributed_computi.Prelude.{
  ℕ, zero, suc, ◌+◌, ◌/◌, ◌≤◌, ◌<◌, ◌≡◌, ◌≢◌, refl, sym, ◌∙◌, ap, subst, ltb, if◌then◌else◌, Bool,
  true, false, List, [], ◌∷◌, map, length, length-map, get_or, get_or-set_ne, get_or-replicate,
  replicate, some, ℤ, pos, negsuc, nonneg, pos_part, eqb_ℤ, eqb_ℤ_iff, arith, Bool-cases,
  Option-cases, inl, inr, dec_lt,
}
use mini_distributed_computi.Byzantine.King.{
  max_values, Process, System, counts, collect, count_votes, find_majority, adopt, follow, decide,
  estimate_of, rounds, step, turn, run_loop,
}

-- all processes have the estimate `x`
abbrev pub Unanimous : ℤ → List Process → Type 0
Unanimous x [] = Unit
Unanimous x (p ∷ ps) = (p.estimate ≡ x) × Unanimous x ps

-- the estimate that a phase leaves all processes with
abbrev pub choice : System → ℤ
choice s =
    adopt (find_majority (collect s.processes (replicate max_values 0) 0).0 (s.n / 2 + s.f) 0)
      (estimate_of s.processes (get_or s.king_schedule s.current_phase 0))

estimate_of-voted :
    (qs ps : List Process) (i : ℕ) → estimate_of (map (count_votes qs) ps) i ≡ estimate_of ps i
estimate_of-voted qs [] i = refl
estimate_of-voted qs (p ∷ ps) zero = refl
estimate_of-voted qs (p ∷ ps) (suc i) = estimate_of-voted qs ps i

followed-Unanimous :
    (qs ps : List Process) (threshold : ℕ) (king : ℤ)
    → Unanimous
        (adopt (find_majority (collect qs (replicate max_values 0) 0).0 threshold 0) king)
        (map (follow threshold king) (map (count_votes qs) ps))
followed-Unanimous qs [] threshold king = tt
followed-Unanimous qs (p ∷ ps) threshold king = (refl, followed-Unanimous qs ps threshold king)

rounds-Unanimous : (s : System) → Unanimous (choice s) (rounds s)
unfolding rounds
rounds-Unanimous s =
    subst
      (λ k.
        Unanimous
          (adopt
            (find_majority (collect s.processes (replicate max_values 0) 0).0 (s.n / 2 + s.f) 0) k)
          (rounds s))
      (estimate_of-voted s.processes s.processes (get_or s.king_schedule s.current_phase 0))
      (followed-Unanimous s.processes s.processes (s.n / 2 + s.f) _)

length-rounds : (s : System) → length (rounds s) ≡ length s.processes
unfolding rounds
length-rounds s =
    length-map _ (map (count_votes s.processes) s.processes) ∙ length-map _ s.processes

nonneg-pos : (z : ℤ) → nonneg z ≡ true → z ≡ pos (pos_part z)
nonneg-pos (pos n) h = refl
nonneg-pos (negsuc n) h = absurd (ground arith)

-- unanimous processes vote for no other value
collect-Unanimous :
    (ps : List Process) (votes : List ℕ) (num : ℕ) (x : ℤ) (v : ℕ)
    → Unanimous x ps
    → x ≢ pos v
    → get_or (collect ps votes num).0 v 0 ≡ get_or votes v 0
unfolding collect
collect-Unanimous [] votes num x v all ne = refl
collect-Unanimous (p ∷ ps) votes num x v (first, all) ne = elim (Bool-cases (counts p.estimate)) [
  | inr bad ↦ rw bad (collect-Unanimous ps votes num x v all ne)
  | inl good ↦
      let apart : pos_part p.estimate ≢ v =
        λ e. ne (sym first ∙ nonneg-pos p.estimate (ground arith) ∙ ap pos e) in
      rw good (
        collect-Unanimous ps _ (num + 1) x v all ne
        ∙ get_or-set_ne votes (pos_part p.estimate) v _ 0 apart)
]

find_majority-some :
    (cs : List ℕ) (threshold v m : ℕ)
    → find_majority cs threshold v ≡ some m
    → (i : ℕ) × (m ≡ v + i) × (threshold < get_or cs i 0)
unfolding find_majority
find_majority-some [] threshold v m = λ h. absurd (cc h)
find_majority-some (c ∷ cs) threshold v m = elim (Bool-cases (ltb threshold c)) [
  | inl more ↦ rw more (λ h. let e : v ≡ m = cc h in (0, omega arith, ground arith))
  | inr few ↦ rw few (λ h.
      let (i, e, lt) = find_majority-some cs threshold (suc v) m h in (suc i, omega arith, lt))
]

estimate_of-Unanimous :
    (ps : List Process) (x : ℤ) (i : ℕ) → Unanimous x ps → i < length ps → estimate_of ps i ≡ x
estimate_of-Unanimous [] x i all lt = absurd (omega arith)
estimate_of-Unanimous (p ∷ ps) x zero (first, all) lt = first
estimate_of-Unanimous (p ∷ ps) x (suc i) (first, all) lt =
    estimate_of-Unanimous ps x i all (omega arith)

-- A system between two phases.
pub record Ready (s : System) : Type 0 where
  pub same_size : length s.processes ≡ s.n
  pub kings : (k : ℕ) → get_or s.king_schedule k 0 < s.n
  pub running : s.agreement_reached ≡ false
  pub phases_left : s.current_phase ≤ s.f

pub choice-Unanimous : (s : System) (x : ℤ) → Ready s → Unanimous x s.processes → choice s ≡ x
choice-Unanimous s x ready all = elim (Option-cases (find_majority votes (s.n / 2 + s.f) 0)) [
  | inl no_one ↦ rw no_one (
      estimate_of-Unanimous s.processes x (get_or s.king_schedule s.current_phase 0) all
        (omega (arith, ready.same_size, ready.kings s.current_phase)))
  | inr (m, found) ↦
      let (i, e, more) = find_majority-some votes (s.n / 2 + s.f) 0 m found in
      let same : i ≡ m = omega arith in
      let some_vote : 0 < get_or votes i 0 = omega arith in
      rw found (voted m (subst (λ k. 0 < get_or votes k 0) same some_vote))
]
  where
    votes : List ℕ
    votes = (collect s.processes (replicate max_values 0) 0).0

    voted : (m : ℕ) → 0 < get_or votes m 0 → pos m ≡ x
    voted m some_vote = elim (Bool-cases (eqb_ℤ x (pos m))) [
      | inl same ↦ sym ((eqb_ℤ_iff x (pos m)).0 same)
      | inr other ↦
          let no_votes =
            collect-Unanimous s.processes (replicate max_values 0) 0 x m all
              (λ e. let same = (eqb_ℤ_iff x (pos m)).1 e in absurd (cc (same, other))) in
          absurd (omega (arith, no_votes, get_or-replicate {A = ℕ} max_values 0 m))
    ]

-- all processes have decided `x`
abbrev pub Decided : ℤ → List Process → Type 0
Decided x [] = Unit
Decided x (p ∷ ps) = (p.has_decided ≡ true) × (p.decision ≡ x) × Decided x ps

decide-Decided : (x : ℤ) (ps : List Process) → Unanimous x ps → Decided x (map decide ps)
decide-Decided x [] all = tt
decide-Decided x (p ∷ ps) (first, all) = (refl, first, decide-Decided x ps all)

-- what the loop ends with
pub record Ended (s : System) (x : ℤ) (t : System) : Type 0 where
  pub last_phase : t.current_phase ≡ s.f + 1
  pub same_size : length t.processes ≡ s.n
  pub decided : Decided x t.processes

after_phase : System → System
after_phase s = record s { current_phase = s.current_phase + 1; processes = rounds s }

last : System → System
last s = record s {
  current_phase = s.current_phase + 1;
  processes = map decide (rounds s);
  agreement_reached = true;
}

step-after_phase : (s : System) → s.current_phase < s.f → step s ≡ (false, after_phase s)
unfolding step after_phase
step-after_phase s more =
    let low : ltb s.f s.current_phase ≡ false = ground arith in
    let low' : ltb s.f (s.current_phase + 1) ≡ false = ground arith in rw (low, low') refl

step-last : (s : System) → s.current_phase ≡ s.f → step s ≡ (true, last s)
unfolding step last
step-last s e =
    let low : ltb s.f s.current_phase ≡ false = ground arith in
    let high : ltb s.f (s.current_phase + 1) ≡ true = ground arith in rw (low, high) refl

turn-running :
    (s : System) (r : Bool × System) (rest : System)
    → Ready s
    → turn s r rest ≡ (if r.0 then r.1 else rest)
turn-running s r rest ready = ap (λ b. if b then s else (if r.0 then r.1 else rest)) ready.running

run_loop-turn :
    (fuel : ℕ) (s : System) (r : Bool × System)
    → Ready s
    → step s ≡ r
    → run_loop (suc fuel) s ≡ (if r.0 then r.1 else run_loop fuel r.1)
unfolding run_loop
run_loop-turn fuel s r ready e =
    turn-running s (step s) (run_loop fuel (step s).1) ready
    ∙ ap (λ q. if q.0 then q.1 else run_loop fuel q.1) e

after_phase-Ready : (s : System) → Ready s → s.current_phase < s.f → Ready (after_phase s)
unfolding after_phase
after_phase-Ready s ready more = record {
  same_size = length-rounds s ∙ ready.same_size;
  kings = ready.kings;
  running = ready.running;
  phases_left = omega arith;
}

after_phase-choice :
    (s : System) → Ready s → s.current_phase < s.f → choice (after_phase s) ≡ choice s
unfolding after_phase
after_phase-choice s ready more =
    choice-Unanimous (after_phase s) (choice s) (after_phase-Ready s ready more)
      (rounds-Unanimous s)

last-Ended : (s : System) → Ready s → s.current_phase ≡ s.f → Ended s (choice s) (last s)
unfolding last
last-Ended s ready e = record {
  last_phase = omega arith;
  same_size = length-map decide (rounds s) ∙ length-rounds s ∙ ready.same_size;
  decided = decide-Decided (choice s) (rounds s) (rounds-Unanimous s);
}

Ended-after_phase : (s t : System) (x : ℤ) → Ended (after_phase s) x t → Ended s x t
unfolding after_phase
Ended-after_phase s t x e = record {
  last_phase = e.last_phase;
  same_size = e.same_size;
  decided = e.decided;
}

next_enough :
    (s : System) (fuel : ℕ)
    → s.f < s.current_phase + suc fuel
    → (after_phase s).f < (after_phase s).current_phase + fuel
unfolding after_phase
next_enough s fuel enough = omega arith

-- The loop ends with enough fuel, and more does not change the outcome.
pub run_loop-Ended :
    (fuel more : ℕ) (s : System)
    → Ready s
    → s.f < s.current_phase + fuel
    → s.f < s.current_phase + more
    → Ended s (choice s) (run_loop fuel s) × (run_loop more s ≡ run_loop fuel s)
run_loop-Ended zero more s ready enough enough' = absurd (omega (arith, ready.phases_left))
run_loop-Ended (suc fuel) zero s ready enough enough' = absurd (omega (arith, ready.phases_left))
run_loop-Ended (suc fuel) (suc more) s ready enough enough' = elim (dec_lt s.current_phase s.f) [
  | no ge ↦
      let e : s.current_phase ≡ s.f = omega (arith, ready.phases_left) in
      rw
        (run_loop-turn fuel s _ ready (step-last s e), run_loop-turn more s _ ready (step-last s e))
        (last-Ended s ready e, refl)
  | yes lt ↦
      let (ended, same) =
        run_loop-Ended fuel more (after_phase s) (after_phase-Ready s ready lt)
          (next_enough s fuel enough) (next_enough s more enough') in
      rw
        (
          run_loop-turn fuel s _ ready (step-after_phase s lt),
          run_loop-turn more s _ ready (step-after_phase s lt),
        )
        (
          subst (λ x. Ended s x (run_loop fuel (after_phase s))) (after_phase-choice s ready lt)
              (Ended-after_phase s (run_loop fuel (after_phase s)) (choice (after_phase s)) ended),
          same,
        )
]
