-- ===== src/Paxos/Selection.antt =====
-- The rule by which `paxos_accept` selects a value from the promises.
use mini_distributed_computi.Prelude.{
  ℕ, ◌<◌, ◌≤◌, ◌≡◌, ◌⊎◌, inl, inr, refl, ltb, ltb→lt, Bool-cases, List, [], ◌∷◌, Option, none, some,
  arith, sym,
}
use mini_distributed_computi.Paxos.Types.{Value, Message}
use mini_distributed_computi.Paxos.Roles.{find_highest, value_to_propose}
use mini_distributed_computi.Paxos.System.{In}

-- What the loop makes of the ballot `h` and the promise `best` that it starts with.
record Found (ms : List Message) (h : ℕ) (best : Option Message) (out : ℕ × Option Message)
    : Type 0 where
  grown : h ≤ out.0
  above : (m : Message) → In m ms → m.accepted_ballot ≤ out.0
  origin :
      (out.0 ≡ h) × (out.1 ≡ best)
      ⊎ ((m : Message) × In m ms × (out.1 ≡ some m) × (m.accepted_ballot ≡ out.0) × (h < out.0))

find_highest-Found :
    (ms : List Message) (h : ℕ) (best : Option Message) → Found ms h best (find_highest ms h best)
unfolding find_highest
find_highest-Found [] h best = record {
  grown = omega arith;
  above = λ m i. elim i [ ];
  origin = inl (refl, refl);
}
find_highest-Found (x ∷ ms) h best = elim (Bool-cases (ltb h x.accepted_ballot)) [
  | inl more ↦
      let r = find_highest-Found ms x.accepted_ballot (some x) in
      rw (more, find_highest)
        (record {
          grown = omega (arith, r.grown, ltb→lt _ _ more);
          above = λ m i. elim i [ inl e ↦ rw e r.grown | inr i' ↦ r.above m i' ];
          origin = inr (later r.origin (ltb→lt _ _ more));
        })
  | inr less ↦
      let r = find_highest-Found ms h best in
      rw (less, find_highest)
        (record {
          grown = r.grown;
          above = λ m i. elim i [ inl e ↦ rw e (ground (arith, r.grown)) | inr i' ↦ r.above m i' ];
          origin = elim r.origin [
            | inl same ↦ inl same
            | inr (m, i, e, e', lt) ↦ inr (m, inr i, e, e', lt)
          ];
        })
]
  where
    later :
        {out : ℕ × Option Message}
        → (out.0 ≡ x.accepted_ballot) × (out.1 ≡ some x)
          ⊎ ((m : Message) × In m ms
              × (out.1 ≡ some m)
              × (m.accepted_ballot ≡ out.0)
              × (x.accepted_ballot < out.0))
        → h < x.accepted_ballot
        → (m : Message) × In m (x ∷ ms)
          × (out.1 ≡ some m)
          × (m.accepted_ballot ≡ out.0)
          × (h < out.0)
    later (inl (e, e')) lt = (x, inl refl, e', sym e, omega arith)
    later (inr (m, i, e, e', more)) lt = (m, inr i, e, e', omega arith)

-- The two ways in which the value to propose comes about.
pub data Selected (promises : List Message) (own v : Value) : Type 0 where
  free : ((m : Message) → In m promises → m.accepted_ballot ≡ 0) → v ≡ own → Selected promises own v
  adopted :
      (m : Message)
      → In m promises
      → 0 < m.accepted_ballot
      → v ≡ m.accepted_value
      → ((m' : Message) → In m' promises → m'.accepted_ballot ≤ m.accepted_ballot)
      → Selected promises own v

-- `paxos_accept` proposes its own value if no promise reports an accepted proposal, and otherwise
-- the value of a promise whose reported ballot is the highest of all.
pub value_to_propose-Selected :
    (promises : List Message) (own : Value) → Selected promises own (value_to_propose promises own)
unfolding value_to_propose
value_to_propose-Selected promises own =
    let r = find_highest-Found promises 0 none in
    elim r.origin [
      | inl (zero_left, no_best) ↦ free (λ m i. omega (arith, r.above m i)) (rw no_best)
      | inr (m, i, best, e, lt) ↦
          adopted m i (omega arith) (rw best (ground arith)) (λ m' i'. omega (arith, r.above m' i'))
    ]
