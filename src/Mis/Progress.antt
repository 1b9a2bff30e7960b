-- ===== src/Mis/Progress.antt =====
-- A round of Luby's algorithm with an active node makes progress: the active node of the highest
-- rank joins, or a neighbor of it did before.
use mini_distributed_computi.Prelude.{
  ℕ, zero, suc, ◌+◌, ◌≤◌, ◌<◌, ◌≡◌, ◌⊎◌, refl, sym, subst, Bool, true, false, List, [], ◌∷◌, length,
  get_or, get_or-out, set, arith, Bool-cases, inl, inr, ℕ_discrete, dec_lt,
}
use mini_distributed_computi.Graph.Types.{Graph, size, neighbors}
use mini_distributed_computi.Graph.Simple.{IsSimple}
use mini_distributed_computi.Mis.Types.{member, set_size}
use mini_distributed_computi.Mis.Luby.{is_top, deactivate, Round, visit, round_loop}
use mini_distributed_computi.Mis.Round.{IsRound, round_loop-IsRound}

set_size-set :
    (bs : List Bool) (i : ℕ)
    → i < length bs
    → member bs i ≡ false
    → set_size (set bs i true) ≡ suc (set_size bs)
unfolding set_size
set_size-set [] i lt h = absurd (omega arith)
set_size-set (b ∷ bs) zero lt h = ground arith
set_size-set (b ∷ bs) (suc i) lt h = omega (arith, set_size-set bs i (omega arith) h)

set_size-clear :
    (bs : List Bool) (i : ℕ) → member bs i ≡ true → suc (set_size (set bs i false)) ≡ set_size bs
unfolding set_size
set_size-clear [] i h = absurd (ground arith)
set_size-clear (b ∷ bs) zero h = ground arith
set_size-clear (b ∷ bs) (suc i) h = omega (arith, set_size-clear bs i h)

set_size-clear_le : (bs : List Bool) (i : ℕ) → set_size (set bs i false) ≤ set_size bs
unfolding set_size
set_size-clear_le [] i = omega arith
set_size-clear_le (b ∷ bs) zero = ground arith
set_size-clear_le (b ∷ bs) (suc i) = omega (arith, set_size-clear_le bs i)

set_size-deactivate : (ws : List ℕ) (bs : List Bool) → set_size (deactivate ws bs) ≤ set_size bs
unfolding deactivate
set_size-deactivate [] bs = omega arith
set_size-deactivate (w ∷ ws) bs =
    omega (arith, set_size-deactivate ws (set bs w false), set_size-clear_le bs w)

-- What changes between two states of a round: each node that joins is one more in the set, and at
-- least one less is active.
pub record Moved (r t : Round) : Type 0 where
  pub joined_le : r.joined ≤ t.joined
  pub members : set_size t.in_mis + r.joined ≡ set_size r.in_mis + t.joined
  pub spent : set_size t.active + t.joined ≤ set_size r.active + r.joined

Moved-refl : (r : Round) → Moved r r
Moved-refl r = record { joined_le = omega arith; members = refl; spent = omega arith }

visit-Moved :
    (g : Graph) (ranks : List ℕ) (v : ℕ) (r : Round)
    → IsSimple g
    → IsRound g r
    → Moved r (visit g ranks r v)
visit-Moved g ranks v r simple inv = elim (Bool-cases (member r.active v)) [
  | inr off ↦ rw off (Moved-refl r)
  | inl on ↦ elim (Bool-cases (is_top r.active ranks v (neighbors g v))) [
    | inr under ↦ rw (on, under) (Moved-refl r)
    | inl top ↦
        rw (on, top)
          (record {
            joined_le = omega arith;
            members = omega (arith, set_size-set r.in_mis v (inside on) (outside on));
            spent = omega (
              arith,
              set_size-deactivate (neighbors g v) (set r.active v false),
              set_size-clear r.active v on,
            );
          })
  ]
]
  where
    inside : member r.active v ≡ true → v < length r.in_mis
    inside on = elim (dec_lt v (length r.in_mis)) [
      | yes lt ↦ lt
      | no ge ↦
          absurd
            (cc (on, get_or-out r.active v false (omega (arith, inv.active_size, inv.set_size))))
    ]

    outside : member r.active v ≡ true → member r.in_mis v ≡ false
    outside on = elim (Bool-cases (member r.in_mis v)) [
      | inr out ↦ out
      | inl in_set ↦ absurd (cc (on, inv.idle v in_set))
    ]

pub round_loop-Moved :
    (g : Graph) (ranks : List ℕ) (f v : ℕ) (r : Round)
    → IsSimple g
    → IsRound g r
    → Moved r (round_loop g ranks f v r)
unfolding round_loop
round_loop-Moved g ranks zero v r simple inv = Moved-refl r
round_loop-Moved g ranks (suc f) v r simple inv =
    let one = visit-Moved g ranks v r simple inv in
    let rest =
      round_loop-Moved g ranks f (suc v) (visit g ranks r v) simple
        (round_loop-IsRound g ranks 1 v r simple inv) in
    record {
      joined_le = omega (arith, one.joined_le, rest.joined_le);
      members = omega (arith, one.members, rest.members);
      spent = omega (arith, one.spent, rest.spent);
    }

-- If nobody joins while the loop goes over the nodes from `v`, the arrays stay as they are, and
-- each active one of these nodes has an active neighbor of a higher rank.
abbrev Stalled : Graph → List ℕ → ℕ → ℕ → Round → Type 0
Stalled g ranks f v r =
    (u : ℕ)
    → v ≤ u
    → u < v + f
    → member r.active u ≡ true
    → is_top r.active ranks u (neighbors g u) ≡ false

Stalled-cons :
    (g : Graph) (ranks : List ℕ) (f v : ℕ) (r : Round)
    → (member r.active v ≡ true → is_top r.active ranks v (neighbors g v) ≡ false)
    → Stalled g ranks f (suc v) r
    → Stalled g ranks (suc f) v r
Stalled-cons g ranks f v r first rest u le lt on = elim (ℕ_discrete v u) [
  | yes e ↦
      subst (λ k. is_top r.active ranks k (neighbors g k) ≡ false) e
        (first (subst (λ k. member r.active k ≡ true) (sym e) on))
  | no ne ↦ rest u (omega arith) (omega arith) on
]

unchanged :
    (g : Graph) (ranks : List ℕ) (f v : ℕ) (r : Round)
    → visit g ranks r v ≡ r
    → (round_loop g ranks f (suc v) (visit g ranks r v)).joined ≡ r.joined
    → (round_loop g ranks f (suc v) r).joined ≡ r.joined
unchanged g ranks f v r same h =
    subst (λ t. (round_loop g ranks f (suc v) t).joined ≡ r.joined) same h

round_loop-Stalled :
    (g : Graph) (ranks : List ℕ) (f v : ℕ) (r : Round)
    → IsSimple g
    → IsRound g r
    → (round_loop g ranks f v r).joined ≡ r.joined
    → Stalled g ranks f v r
unfolding round_loop
round_loop-Stalled g ranks zero v r simple inv h = λ u le lt. absurd (omega arith)
round_loop-Stalled g ranks (suc f) v r simple inv h = elim (Bool-cases (member r.active v)) [
  | inr off ↦
      Stalled-cons g ranks f v r (λ on. absurd (cc (on, off)))
        (round_loop-Stalled g ranks f (suc v) r simple inv
          (unchanged g ranks f v r (rw off refl) h))
  | inl on ↦ elim (Bool-cases (is_top r.active ranks v (neighbors g v))) [
    | inr under ↦
        Stalled-cons g ranks f v r (λ _. under)
          (round_loop-Stalled g ranks f (suc v) r simple inv
            (unchanged g ranks f v r (rw (on, under) refl) h))
    | inl top ↦
        let grown : (visit g ranks r v).joined ≡ r.joined + 1 = rw (on, top) refl in
        let rest =
          round_loop-Moved g ranks f (suc v) (visit g ranks r v) simple
            (round_loop-IsRound g ranks 1 v r simple inv) in
        absurd (omega (arith, rest.joined_le))
  ]
]

-- An active node below `n` whose rank is the highest of those.
highest :
    (active : List Bool) (ranks : List ℕ) (n : ℕ)
    → ((w : ℕ) → w < n → member active w ≡ false)
      ⊎ (u : ℕ) × (member active u ≡ true)
        × ((w : ℕ) → w < n → member active w ≡ true → get_or ranks w 0 ≤ get_or ranks u 0)
highest active ranks zero = inl (λ w lt. absurd (omega arith))
highest active ranks (suc n) = elim (Bool-cases (member active n)) [
  | inr off ↦ elim (highest active ranks n) [
    | inl all_off ↦ inl (λ w lt. elim (ℕ_discrete w n) [
      | yes e ↦ subst (λ k. member active k ≡ false) (sym e) off
      | no ne ↦ all_off w (omega arith)
    ])
    | inr (u, on, top) ↦ inr (
      u,
      on,
      λ w lt on'. elim (ℕ_discrete w n) [
        | yes e ↦ absurd (cc (subst (λ k. member active k ≡ true) e on', off))
        | no ne ↦ top w (omega arith) on'
      ],
    )
  ]
  | inl here_on ↦ elim (highest active ranks n) [
    | inl all_off ↦ inr (
      n,
      here_on,
      λ w lt on'. elim (ℕ_discrete w n) [
        | yes e ↦ subst (λ k. get_or ranks k 0 ≤ get_or ranks n 0) (sym e) (omega arith)
        | no ne ↦ absurd (cc (all_off w (omega arith), on'))
      ],
    )
    | inr (u, on, top) ↦ elim (dec_lt (get_or ranks u 0) (get_or ranks n 0)) [
      | yes higher ↦ inr (
        n,
        here_on,
        λ w lt on'. elim (ℕ_discrete w n) [
          | yes e ↦ subst (λ k. get_or ranks k 0 ≤ get_or ranks n 0) (sym e) (omega arith)
          | no ne ↦ omega (arith, top w (omega arith) on')
        ],
      )
      | no lower ↦ inr (
        u,
        on,
        λ w lt on'. elim (ℕ_discrete w n) [
          | yes e ↦ subst (λ k. get_or ranks k 0 ≤ get_or ranks u 0) (sym e) (omega arith)
          | no ne ↦ top w (omega arith) on'
        ],
      )
    ]
  ]
]

is_top-highest :
    (active : List Bool) (ranks : List ℕ) (u : ℕ) (ws : List ℕ)
    → ((w : ℕ) → member active w ≡ true → get_or ranks w 0 ≤ get_or ranks u 0)
    → is_top active ranks u ws ≡ true
unfolding is_top
is_top-highest active ranks u [] top = refl
is_top-highest active ranks u (w ∷ ws) top =
    let rest = is_top-highest active ranks u ws top in
    elim (Bool-cases (member active w)) [
      | inr off ↦ rw (off, rest) refl
      | inl on ↦ let low = top w on in ground arith
    ]

-- A round in which nobody joins leaves no active node.
pub round_loop-progress :
    (g : Graph) (ranks : List ℕ) (r : Round)
    → IsSimple g
    → IsRound g r
    → (round_loop g ranks (size g) 0 r).joined ≡ r.joined
    → (u : ℕ) → member r.active u ≡ false
round_loop-progress g ranks r simple inv h u = elim (highest r.active ranks (size g)) [
  | inl all_off ↦ elim (dec_lt u (size g)) [
    | yes lt ↦ all_off u lt
    | no ge ↦ get_or-out r.active u false (omega (arith, inv.active_size))
  ]
  | inr (x, on, top) ↦ absurd (
      cc (
        round_loop-Stalled g ranks (size g) 0 r simple inv h x (omega arith)
            (omega (arith, low x on)) on,
        is_top-highest r.active ranks x (neighbors g x) (λ w on'. top w (low w on') on'),
      ))
]
  where
    low : (w : ℕ) → member r.active w ≡ true → w < size g
    low w on = elim (dec_lt w (size g)) [
      | yes lt ↦ lt
      | no ge ↦ absurd (cc (on, get_or-out r.active w false (omega (arith, inv.active_size))))
    ]
