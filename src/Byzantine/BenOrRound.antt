-- ===== src/Byzantine/BenOrRound.antt =====
-- The first round of `benor_run` when the correct processes, more than half, start with one value.
use mini_distributed_computi.Prelude.{
  ℕ, zero, suc, ◌+◌, ◌*◌, ◌/◌, ◌≤◌, ◌<◌, ◌≡◌, ◌≢◌, refl, sym, ◌∙◌, ap, subst, ltb, true, false,
  List, [], ◌∷◌, map, take, length, length-map, Option, none, some, ℤ, pos, arith, Bool-cases, inl,
  inr,
}
use mini_distributed_computi.Byzantine.King.{max_processes}
use mini_distributed_computi.Byzantine.BenOr.{
  reaches, Process, is_correct, add_message, estimate_from, adoption_from, estimates, adoptions,
  count_of, majority_of, exchange, receive, exchanged,
}
use mini_distributed_computi.Byzantine.BenOrRun.{Received, verdict_of}
use mini_distributed_computi.Byzantine.BenOrCounts.{
  correct_count, Estimate, Adopted, Prevails, estimates-Prevails, adoptions-Prevails,
}

take-enough : (n : ℕ) (xs : List ℤ) → length xs ≤ n → take n xs ≡ xs
take-enough zero [] le = refl
take-enough zero (x ∷ xs) le = absurd (omega arith)
take-enough (suc n) [] le = refl
take-enough (suc n) (x ∷ xs) le = ap (λ ys. x ∷ ys) (take-enough n xs (omega arith))

length-add_message : (o : Option ℤ) (ms : List ℤ) → length (add_message o ms) ≤ suc (length ms)
length-add_message none ms = omega arith
length-add_message (some v) ms = omega arith

length-estimates : (ps : List Process) (i : ℕ) → length (estimates ps i) ≤ length ps
unfolding estimates
length-estimates [] i = omega arith
length-estimates (p ∷ ps) i = omega (
  arith,
  length-estimates ps (suc i),
  length-add_message (estimate_from i p p.fault_type) (estimates ps (suc i)),
)

length-adoptions : (ps : List Process) (i : ℕ) → length (adoptions ps i) ≤ length ps
unfolding adoptions
length-adoptions [] i = omega arith
length-adoptions (p ∷ ps) i = omega (
  arith,
  length-adoptions ps (suc i),
  length-add_message (adoption_from i p p.fault_type) (adoptions ps (suc i)),
)

-- the other one of 0 and 1
abbrev other : ℕ → ℕ
other zero = 1
other (suc v) = 0

other-ne : (v : ℕ) → v ≤ 1 → pos (other v) ≢ pos v
other-ne zero le e = absurd (cc e)
other-ne (suc zero) le e = absurd (cc e)
other-ne (suc (suc v)) le e = absurd (omega arith)

Prevails-majority :
    (n v : ℕ) (ps : List Process) (messages : List ℤ)
    → v ≤ 1
    → length ps ≡ n
    → n < 2 * correct_count ps
    → Prevails (pos v) (pos (other v)) ps messages
    → majority_of (n / 2) messages ≡ pos v
Prevails-majority n zero ps messages le len most (more, few) =
    let high : ltb (n / 2) (count_of (pos 0) messages) ≡ true = ground arith in rw high refl
Prevails-majority n (suc zero) ps messages le len most (more, few) =
    let low : ltb (n / 2) (count_of (pos 0) messages) ≡ false = ground arith in
    let high : ltb (n / 2) (count_of (pos 1) messages) ≡ true = ground arith in rw (low, high) refl
Prevails-majority n (suc (suc v)) ps messages le len most prevails = absurd (omega arith)

Prevails-verdict :
    (f v : ℕ) (ps : List Process) (messages : List ℤ)
    → v ≤ 1
    → f ≤ 16
    → f < correct_count ps
    → length ps ≤ correct_count ps + f
    → Prevails (pos v) (pos (other v)) ps messages
    → verdict_of f messages ≡ some v
Prevails-verdict f zero ps messages le small enough faulty (more, few) =
    let high : reaches f (count_of (pos 0) messages) ≡ true = ground arith in rw high refl
Prevails-verdict f (suc zero) ps messages le small enough faulty (more, few) =
    let low : reaches f (count_of (pos 0) messages) ≡ false = ground arith in
    let high : reaches f (count_of (pos 1) messages) ≡ true = ground arith in rw (low, high) refl
Prevails-verdict f (suc (suc v)) ps messages le small enough faulty prevails = absurd (omega arith)

exchange-Adopted :
    (n : ℕ) (messages : List ℤ) (x : ℤ) (ps : List Process)
    → majority_of (n / 2) messages ≡ x
    → Adopted x (map (exchange n messages) ps)
      × (correct_count (map (exchange n messages) ps) ≡ correct_count ps)
exchange-Adopted n messages x [] e = (tt, refl)
exchange-Adopted n messages x (p ∷ ps) e =
    let (rest, count) = exchange-Adopted n messages x ps e in
    elim (Bool-cases (is_correct p.fault_type)) [
      | inl good ↦ rw good ((λ h. e, rest), rw (good, count) refl)
      | inr bad ↦ rw bad ((λ h. absurd (cc (bad, h)), rest), rw (bad, count) refl)
    ]

receive-Received :
    (messages : List ℤ) (ps : List Process)
    → Received messages (map (receive messages) ps)
      × (correct_count (map (receive messages) ps) ≡ correct_count ps)
receive-Received messages [] = (tt, refl)
receive-Received messages (p ∷ ps) =
    let (rest, count) = receive-Received messages ps in
    elim (Bool-cases (is_correct p.fault_type)) [
      | inl good ↦ rw good ((λ h. refl, rest), rw (good, count) refl)
      | inr bad ↦ rw bad ((λ h. absurd (cc (bad, h)), rest), rw (bad, count) refl)
    ]

-- The messages of phase 2 make all correct processes decide `v`.
pub exchanged-verdict :
    (n f v : ℕ) (ps : List Process)
    → v ≤ 1
    → length ps ≡ n
    → n ≤ 16
    → 2 * f < n
    → n ≤ correct_count ps + f
    → Estimate (pos v) ps
    → (messages : List ℤ) × (verdict_of f messages ≡ some v)
      × Received messages (exchanged n ps)
      × (correct_count (exchanged n ps) ≡ correct_count ps)
unfolding exchanged
exchanged-verdict n f v ps le len small most faulty all =
    let sent = take max_processes (estimates ps 0) in
    let same : sent ≡ estimates ps 0 =
      take-enough max_processes (estimates ps 0) (omega (arith, length-estimates ps 0)) in
    let prevails = estimates-Prevails (pos v) (pos (other v)) ps 0 (other-ne v le) all in
    let adopted : majority_of (n / 2) sent ≡ pos v =
      rw same (Prevails-majority n v ps (estimates ps 0) le len (omega arith) prevails) in
    let first = map (exchange n sent) ps in
    let (agreed, count) = exchange-Adopted n sent (pos v) ps adopted in
    let len' : length first ≡ n = length-map (exchange n sent) ps ∙ len in
    let answers = take max_processes (adoptions first 0) in
    let same' : answers ≡ adoptions first 0 =
      take-enough max_processes (adoptions first 0) (omega (arith, length-adoptions first 0)) in
    let prevails' = adoptions-Prevails (pos v) (pos (other v)) first 0 (other-ne v le) agreed in
    let decided : verdict_of f answers ≡ some v =
      subst (λ ms. verdict_of f ms ≡ some v) (sym same')
        (Prevails-verdict f v first (adoptions first 0) le (omega arith) (omega arith) (omega arith)
          prevails') in
    let (received, count') = receive-Received answers first in
    (answers, decided, received, count' ∙ count)
