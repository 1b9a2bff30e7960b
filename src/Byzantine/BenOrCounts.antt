-- ===== src/Byzantine/BenOrCounts.antt =====
-- How many messages with one value `benor_step` exchanges when the correct processes have one value.
use mini_distributed_computi.Prelude.{
  ℕ, suc, ◌+◌, ◌≤◌, ◌≡◌, ◌≢◌, refl, sym, ◌∙◌, ap, Bool, true, false, List, [], ◌∷◌, length, Option,
  none, some, ℤ, eqb_ℤ, eqb_ℤ_iff, arith, Bool-cases, inl, inr,
}
use mini_distributed_computi.Byzantine.BenOr.{
  FaultType, correct, crash_fault, byzantine, Process, is_correct, estimate_from, adoption_from,
  add_message, estimates, adoptions, count_of,
}

abbrev pub bit : Bool → ℕ
bit true = 1
bit false = 0

-- the number of correct processes
abbrev pub correct_count : List Process → ℕ
correct_count [] = 0
correct_count (p ∷ ps) = bit (is_correct p.fault_type) + correct_count ps

-- the correct processes have the estimate, or have adopted, the value `v`
abbrev pub Estimate : ℤ → List Process → Type 0
Estimate v [] = Unit
Estimate v (p ∷ ps) = (is_correct p.fault_type ≡ true → p.estimate ≡ v) × Estimate v ps

abbrev pub Adopted : ℤ → List Process → Type 0
Adopted v [] = Unit
Adopted v (p ∷ ps) = (is_correct p.fault_type ≡ true → p.adopted_value ≡ v) × Adopted v ps

abbrev weight : ℤ → Option ℤ → ℕ
weight v none = 0
weight v (some x) = bit (eqb_ℤ x v)

count_of-add :
    (v : ℤ) (o : Option ℤ) (ms : List ℤ)
    → count_of v (add_message o ms) ≡ weight v o + count_of v ms
unfolding count_of
count_of-add v none ms = omega arith
count_of-add v (some x) ms = elim (Bool-cases (eqb_ℤ x v)) [
  | inl same ↦ rw same refl
  | inr other ↦ rw other refl
]

estimate_from_correct :
    (i : ℕ) (p : Process) (fault : FaultType)
    → is_correct fault ≡ true
    → estimate_from i p fault ≡ some p.estimate
estimate_from_correct i p correct h = refl
estimate_from_correct i p crash_fault h = absurd (ground arith)
estimate_from_correct i p byzantine h = absurd (ground arith)

adoption_from_correct :
    (i : ℕ) (p : Process) (fault : FaultType)
    → is_correct fault ≡ true
    → adoption_from i p fault ≡ some p.adopted_value
adoption_from_correct i p correct h = refl
adoption_from_correct i p crash_fault h = absurd (ground arith)
adoption_from_correct i p byzantine h = absurd (ground arith)

bit-le : (b : Bool) → bit b ≤ 1
bit-le true = omega arith
bit-le false = omega arith

weight-le : (v : ℤ) (o : Option ℤ) → weight v o ≤ 1
weight-le v none = omega arith
weight-le v (some x) = bit-le (eqb_ℤ x v)

-- a message that is `v` from each correct sender
weight-bit :
    (v w : ℤ) (o : Option ℤ) (b : Bool)
    → w ≢ v
    → (b ≡ true → o ≡ some v)
    → (bit b ≤ weight v o) × (weight w o + bit b ≤ 1)
weight-bit v w o false ne says = (omega arith, omega (arith, weight-le w o))
weight-bit v w o true ne says = rw (says refl) (
  rw ((eqb_ℤ_iff v v).1 refl) (omega arith),
  elim (Bool-cases (eqb_ℤ v w)) [
    | inl same ↦ absurd (ne (sym ((eqb_ℤ_iff v w).0 same)))
    | inr other ↦ rw other (omega arith)
  ],
)

-- There are as many messages `v` as correct senders, and few others.
abbrev pub Prevails : ℤ → ℤ → List Process → List ℤ → Type 0
Prevails v w ps messages =
    (correct_count ps ≤ count_of v messages) × (count_of w messages + correct_count ps ≤ length ps)

pub estimates-Prevails :
    (v w : ℤ) (ps : List Process) (i : ℕ) → w ≢ v → Estimate v ps → Prevails v w ps (estimates ps i)
unfolding estimates count_of
estimates-Prevails v w [] i ne all = (omega arith, omega arith)
estimates-Prevails v w (p ∷ ps) i ne (first, all) =
    let sent = estimate_from i p p.fault_type in
    let (more, few) = estimates-Prevails v w ps (suc i) ne all in
    let (one, other) =
      weight-bit v w sent (is_correct p.fault_type) ne
        (λ h. estimate_from_correct i p p.fault_type h ∙ ap some (first h)) in
    (
      omega (arith, more, one, count_of-add v sent (estimates ps (suc i))),
      omega (arith, few, other, count_of-add w sent (estimates ps (suc i))),
    )

pub adoptions-Prevails :
    (v w : ℤ) (ps : List Process) (i : ℕ) → w ≢ v → Adopted v ps → Prevails v w ps (adoptions ps i)
unfolding adoptions count_of
adoptions-Prevails v w [] i ne all = (omega arith, omega arith)
adoptions-Prevails v w (p ∷ ps) i ne (first, all) =
    let sent = adoption_from i p p.fault_type in
    let (more, few) = adoptions-Prevails v w ps (suc i) ne all in
    let (one, other) =
      weight-bit v w sent (is_correct p.fault_type) ne
        (λ h. adoption_from_correct i p p.fault_type h ∙ ap some (first h)) in
    (
      omega (arith, more, one, count_of-add v sent (adoptions ps (suc i))),
      omega (arith, few, other, count_of-add w sent (adoptions ps (suc i))),
    )
