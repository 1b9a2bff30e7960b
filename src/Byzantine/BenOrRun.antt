-- ===== src/Byzantine/BenOrRun.antt =====
-- In a round of the Ben-Or protocol all correct processes receive the same messages, so they decide
-- together or not at all.
use mini_distributed_computi.Prelude.{
  ℕ, zero, suc, ◌≤◌, ◌<◌, ◌≡◌, ◌⊎◌, refl, sym, ◌∙◌, subst, ltb, leb, if◌then◌else◌, Bool, true,
  false, ◌&&◌, not, List, [], ◌∷◌, map, take, Option, none, some, ℤ, pos, minus_one, arith,
  Bool-cases, Option-cases, inl, inr,
}
use mini_distributed_computi.Byzantine.King.{max_processes}
use mini_distributed_computi.Byzantine.BenOr.{
  Process, System, is_correct, estimates, adoptions, count_of, exchange, receive, verdict, lean,
  settle, Tally, decide_loop, exchanged, end_round, step, run_loop,
}

-- the correct processes have decided `x`, or none has and `x` is -1
abbrev pub Together : Bool → ℤ → List Process → Type 0
Together done x [] = Unit
Together done x (p ∷ ps) =
    (is_correct p.fault_type ≡ true → (p.has_decided ≡ done) × (p.decision ≡ x))
    × Together done x ps

-- the correct processes have received `messages`
abbrev pub Received : List ℤ → List Process → Type 0
Received messages [] = Unit
Received messages (p ∷ ps) =
    (is_correct p.fault_type ≡ true → p.recv_adoptions ≡ messages) × Received messages ps

exchange-Together :
    (n : ℕ) (messages : List ℤ) (done : Bool) (x : ℤ) (ps : List Process)
    → Together done x ps
    → Together done x (map (exchange n messages) ps)
exchange-Together n messages done x [] all = tt
exchange-Together n messages done x (p ∷ ps) (first, all) =
    elim (Bool-cases (is_correct p.fault_type)) [
      | inl good ↦ rw good (λ h. first good, exchange-Together n messages done x ps all)
      | inr bad ↦ rw bad (first, exchange-Together n messages done x ps all)
    ]

receive-Together :
    (messages : List ℤ) (done : Bool) (x : ℤ) (ps : List Process)
    → Together done x ps
    → Together done x (map (receive messages) ps) × Received messages (map (receive messages) ps)
receive-Together messages done x [] all = (tt, tt)
receive-Together messages done x (p ∷ ps) (first, all) =
    let (rest, rest') = receive-Together messages done x ps all in
    elim (Bool-cases (is_correct p.fault_type)) [
      | inl good ↦ rw good ((λ h. first good, rest), (λ h. refl, rest'))
      | inr bad ↦ rw bad ((first, rest), (λ h. absurd (cc (bad, h)), rest'))
    ]

-- the value that every correct process decides on `messages`
abbrev pub verdict_of : ℕ → List ℤ → Option ℕ
verdict_of f messages = verdict f (count_of (pos 0) messages) (count_of (pos 1) messages)

abbrev lean_of : List ℤ → Option ℕ
lean_of messages = lean (count_of (pos 0) messages) (count_of (pos 1) messages)

pub decide_loop-some :
    (f r : ℕ) (messages : List ℤ) (v : ℕ) (ps : List Process) (coin : ℕ)
    → verdict_of f messages ≡ some v
    → Received messages ps
    → Together true (pos v) (decide_loop f r ps coin).processes
      × ((decide_loop f r ps coin).all_decided ≡ (decide_loop f r ps coin).total_correct)
unfolding decide_loop
decide_loop-some f r messages v [] coin e received = (tt, refl)
decide_loop-some f r messages v (p ∷ ps) coin e (first, received) =
    elim (Bool-cases (is_correct p.fault_type)) [
      | inl good ↦
          let (rest, count) = decide_loop-some f r messages v ps coin e received in
          rw (good, first good, e) ((λ h. (refl, refl), rest), omega (arith, count))
      | inr bad ↦
          let (rest, count) = decide_loop-some f r messages v ps coin e received in
          rw bad ((λ h. absurd (cc (bad, h)), rest), count)
    ]

-- what a process that does not decide keeps
settle-none :
    (o : Option ℕ) (r : ℕ) (p : Process) (coin : ℕ)
    → ((settle none o r p coin).0.has_decided ≡ p.has_decided)
      × ((settle none o r p coin).0.decision ≡ p.decision)
      × ((settle none o r p coin).0.fault_type ≡ p.fault_type)
settle-none none r p coin = (refl, refl, refl)
settle-none (some v) r p coin = (refl, refl, refl)

decide_loop-none :
    (f r : ℕ) (messages : List ℤ) (done : Bool) (x : ℤ) (ps : List Process) (coin : ℕ)
    → verdict_of f messages ≡ none
    → Received messages ps
    → Together done x ps
    → Together done x (decide_loop f r ps coin).processes
unfolding decide_loop
decide_loop-none f r messages done x [] coin e received all = tt
decide_loop-none f r messages done x (p ∷ ps) coin e (first, received) (same, all) =
    elim (Bool-cases (is_correct p.fault_type)) [
      | inl good ↦
          let q = settle none (lean_of p.recv_adoptions) r p coin in
          let (kept, kept', kept'') = settle-none (lean_of p.recv_adoptions) r p coin in
          let rest = decide_loop-none f r messages done x ps q.1 e received all in
          let undecided : verdict_of f p.recv_adoptions ≡ none =
            subst (λ m. verdict_of f m ≡ none) (sym (first good)) e in
          rw (good, undecided) (λ h. (kept ∙ (same good).0, kept' ∙ (same good).1), rest)
      | inr bad ↦
          let rest = decide_loop-none f r messages done x ps coin e received all in
          rw bad (same, rest)
    ]

pub exchanged-Received :
    (n : ℕ) (ps : List Process) (done : Bool) (x : ℤ)
    → Together done x ps
    → (messages : List ℤ) × Together done x (exchanged n ps) × Received messages (exchanged n ps)
unfolding exchanged
exchanged-Received n ps done x all =
    let sent = take max_processes (estimates ps 0) in
    let answers = take max_processes (adoptions (map (exchange n sent) ps) 0) in
    let (kept, received) =
      receive-Together answers done x (map (exchange n sent) ps)
        (exchange-Together n sent done x ps all) in
    (answers, kept, received)

-- the correct processes agree, and the run goes on only while none of them has decided
pub record IsUniform (s : System) : Type 0 where
  pub undecided : s.agreement_reached ≡ false → Together false minus_one s.processes
  pub together : (done : Bool) × (x : ℤ) × Together done x s.processes
  pub few_rounds : s.current_round ≤ s.max_rounds

-- what the decision loop does: all correct processes decide one value, or none decides
abbrev Decides : Tally → Type 0
Decides o =
    ((v : ℕ) × Together true (pos v) o.processes × (o.all_decided ≡ o.total_correct))
    ⊎ Together false minus_one o.processes

decide_loop-Decides :
    (f r : ℕ) (messages : List ℤ) (ps : List Process) (coin : ℕ)
    → Received messages ps
    → Together false minus_one ps
    → Decides (decide_loop f r ps coin)
decide_loop-Decides f r messages ps coin received all =
    elim (Option-cases (verdict_of f messages)) [
      | inl e ↦ inr (decide_loop-none f r messages false minus_one ps coin e received all)
      | inr (v, e) ↦
          let (done, count) = decide_loop-some f r messages v ps coin e received in
          inl (v, done, count)
    ]

end_round-IsUniform :
    (s : System) (o : Tally)
    → s.current_round < s.max_rounds
    → Decides o
    → IsUniform (end_round s o).1
end_round-IsUniform s o more (inl (v, done, count)) = record {
  undecided = λ h. absurd (ground arith);
  together = (true, pos v, done);
  few_rounds = omega arith;
}
end_round-IsUniform s o more (inr none_done) = record {
  undecided = λ h. none_done;
  together = (false, minus_one, none_done);
  few_rounds = omega arith;
}

-- a property of both values of a conditional, each with the test as it came out
pub if-cases {ℓ κ} :
    {A : Type ℓ} (P : A → Type κ) (b : Bool) (x y : A)
    → (b ≡ true → P x)
    → (b ≡ false → P y)
    → P (if b then x else y)
if-cases P true x y p q = p refl
if-cases P false x y p q = q refl

step-IsUniform : (s : System) (coin : ℕ) → IsUniform s → IsUniform (step s coin).0.1
unfolding step
step-IsUniform s coin ok =
    if-cases (λ (r : (Bool × System) × ℕ). IsUniform r.0.1) s.agreement_reached _ _ (λ h. ok)
      (λ running.
        if-cases (λ (r : (Bool × System) × ℕ). IsUniform r.0.1) (leb s.max_rounds s.current_round) _
          _
          (λ over. record {
            undecided = λ h. absurd (cc h);
            together = ok.together;
            few_rounds = ok.few_rounds;
          })
          (λ more.
            let (messages, all, received) =
              exchanged-Received s.n s.processes false minus_one (ok.undecided running) in
            end_round-IsUniform s (decide_loop s.f s.current_round (exchanged s.n s.processes) coin)
              (ground arith)
              (decide_loop-Decides s.f s.current_round messages (exchanged s.n s.processes) coin
                received all)))

pub run_loop-IsUniform :
    (fuel : ℕ) (s : System) (coin : ℕ) → IsUniform s → IsUniform (run_loop fuel s coin).0
unfolding run_loop
run_loop-IsUniform zero s coin ok = ok
run_loop-IsUniform (suc fuel) s coin ok =
    let t = step-IsUniform s coin ok in
    if-cases (λ (r : System × ℕ). IsUniform r.0)
      (not s.agreement_reached && ltb s.current_round s.max_rounds) _ _
      (λ go.
        if-cases (λ (r : System × ℕ). IsUniform r.0) (step s coin).0.0 _ _ (λ done. t)
          (λ next_round. run_loop-IsUniform fuel (step s coin).0.1 (step s coin).1 t))
      (λ stop. ok)
