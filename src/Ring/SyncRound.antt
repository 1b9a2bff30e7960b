-- ===== src/Ring/SyncRound.antt =====
-- `ring_synchronous_round` against the single steps of `ring_step`.
use native.Mathlib.Nat.{mod-eq_of_lt, mod-eq-sub-mod, add-zero, zero-add}
use mini_distributed_computi.Prelude.{
  ℕ, zero, suc, ◌+◌, ◌-◌, ◌%◌, ◌<◌, ◌≤◌, ◌≡◌, refl, ap, sym, ◌∙◌, length, arith, pos, true, false,
  if◌then◌else◌, Bool-cases, inl, inr, ℕ_discrete, ◌==◌,
}
use mini_distributed_computi.Ring.Config.{
  Variant, three_state, four_state, k_state, Ring, state_at, write_state,
}
use mini_distributed_computi.Ring.Privilege.{next_state, compute_privilege, is_privileged}
use mini_distributed_computi.Ring.Step.{step, step_three_state, step_four_state, step_k_state}
use mini_distributed_computi.Ring.Sync.{sync_write, sync_loop, synchronous_round}
use mini_distributed_computi.Ring.Valid.{IsValid, not_null, state_at-write_state, write_state-shape}
use mini_distributed_computi.Ring.Count.{privileged, privileged_suc}
use mini_distributed_computi.Ring.Guards.{step_idle, step-IsValid, step-SameShape}

previous : (j n : ℕ) → j < n → (suc j + n - 1) % n ≡ j
previous j n h = omega (
  arith,
  mod-eq-sub-mod {n = j + n} {m = n} (omega arith),
  mod-eq_of_lt {n = j} {m = n} h,
  ap (λ (t : ℕ). t % n) (shift j n),
  ap (λ (t : ℕ). t % n) (back j n),
)
  where
    shift : (j n : ℕ) → suc j + n - 1 ≡ j + n
    shift j n = omega arith

    back : (j n : ℕ) → j + n - n ≡ j
    back j n = omega arith

-- The value that a privileged machine writes, alone or in a round.
record Writes (old d : Ring) (i : ℕ) : Type 0 where
  value : ℕ
  alone : (step old (pos i)).1 ≡ write_state old i value
  in_round : sync_write old d i ≡ write_state d i value

Writes-as :
    (old d : Ring) (i : ℕ) (v : Variant)
    → old.variant ≡ v
    → IsValid old
    → i < old.num_machines
    → is_privileged (compute_privilege old (pos i)) ≡ true
    → Writes old d i
unfolding step step_three_state step_four_state step_k_state compute_privilege sync_write
Writes-as old d zero three_state e w h p = record {
  value = next_state old (state_at old (old.num_machines - 1));
  alone = ground arith;
  in_round = ground arith;
}
Writes-as old d zero k_state e w h p = record {
  value = next_state old (state_at old 0);
  alone = ground arith;
  in_round = ground arith;
}
Writes-as old d zero four_state e w h p = record {
  value = state_at old ((0 + 1) % old.num_machines);
  alone = ground arith;
  in_round = ground arith;
}
Writes-as old d (suc i) three_state e w h p = record {
  value = state_at old i;
  alone = ground arith;
  in_round = rw (previous i old.num_machines (omega arith)) (ground arith);
}
Writes-as old d (suc i) k_state e w h p = record {
  value = state_at old i;
  alone = ground arith;
  in_round = rw (previous i old.num_machines (omega arith)) (ground arith);
}
Writes-as old d (suc i) four_state e w h p = elim (Bool-cases (suc i == old.num_machines - 1)) [
  | inl last ↦ record {
    value = next_state old (state_at old (suc i));
    alone = ground arith;
    in_round = ground (arith, ap (state_at old) (shift i));
  }
  | inr inner ↦ record {
    value = next_state old (state_at old i);
    alone = ground arith;
    in_round = ground (arith, ap (state_at old) (shift i));
  }
]
  where
    shift : (i : ℕ) → suc i - 1 ≡ i
    shift i = omega arith

-- The ring in the middle of a round: the machines below `i` have moved.
record Round (old : Ring) (i : ℕ) (d : Ring) : Type 0 where
  size : length d.machines ≡ length old.machines
  machines_eq : d.num_machines ≡ old.num_machines
  states_eq : d.num_states ≡ old.num_states
  variant_eq : d.variant ≡ old.variant
  done : (j : ℕ) → j < i → state_at d j ≡ state_at (step old (pos j)).1 j
  todo : (j : ℕ) → i ≤ j → state_at d j ≡ state_at old j

Round-write :
    {old d : Ring} (i : ℕ)
    → IsValid old
    → i < old.num_machines
    → is_privileged (compute_privilege old (pos i)) ≡ true
    → Round old i d
    → Round old (i + 1) (sync_write old d i)
Round-write {old} {d} i w h p r =
    let m = Writes-as old d i old.variant refl w h p in
    let shape = write_state-shape d i m.value in
    let at = λ (j : ℕ). state_at-write_state d i m.value j (omega (arith, r.size, w.sized)) in
    let own = state_at-write_state old i m.value i (omega (arith, w.sized)) in
    rw (m.in_round) (record {
      size = shape.0 ∙ r.size;
      machines_eq = shape.1 ∙ r.machines_eq;
      states_eq = shape.2 ∙ r.states_eq;
      variant_eq = shape.3 ∙ r.variant_eq;
      done = λ j l. elim (ℕ_discrete i j) [
        | yes e ↦ at j ∙ rw (← e) (ground (arith, own, ap (λ s. state_at s i) m.alone))
        | no ne ↦ at j ∙ ground (arith, r.done j (omega arith))
      ];
      todo = λ j l. at j ∙ ground (arith, r.todo j (omega arith));
    })

Round-idle :
    {old d : Ring} (i : ℕ)
    → is_privileged (compute_privilege old (pos i)) ≡ false
    → Round old i d
    → Round old (i + 1) d
Round-idle {old} i p r = record {
  size = r.size;
  machines_eq = r.machines_eq;
  states_eq = r.states_eq;
  variant_eq = r.variant_eq;
  done = λ j l. elim (ℕ_discrete i j) [
    | yes e ↦
        r.todo j (omega arith) ∙ rw (← e) (ap (λ s. state_at s i) (sym (step_idle old (pos i) p)))
    | no ne ↦ r.done j (omega arith)
  ];
  todo = λ j l. r.todo j (omega arith);
}

sync_loop-Round :
    (f i : ℕ) (old d : Ring) (k : ℕ)
    → IsValid old
    → i + f ≤ old.num_machines
    → Round old i d
    → Round old (i + f) (sync_loop f i old d k).1
unfolding sync_loop
sync_loop-Round zero i old d k w h r = rw add-zero r
sync_loop-Round (suc f) i old d k w h r =
    rw (shift i f) (elim (Bool-cases (is_privileged (compute_privilege old (pos i)))) [
      | inl p ↦
          rw (p, sync_loop)
            (sync_loop-Round f (i + 1) old (sync_write old d i) (k + 1) w (omega arith)
              (Round-write i w (omega arith) p r))
      | inr p ↦
          rw (p, sync_loop) (sync_loop-Round f (i + 1) old d k w (omega arith) (Round-idle i p r))
    ])
  where
    shift : (i f : ℕ) → i + suc f ≡ i + 1 + f
    shift i f = omega arith

sync_loop-count :
    (f i : ℕ) (old d : Ring) (k : ℕ)
    → (sync_loop f i old d k).0 + privileged old i ≡ k + privileged old (i + f)
unfolding sync_loop
sync_loop-count zero i old d k = rw add-zero
sync_loop-count (suc f) i old d k =
    let p = is_privileged (compute_privilege old (pos i)) in
    ground (
      arith,
      sync_loop-count f (i + 1) old (if p then sync_write old d i else d) (if p then k + 1 else k),
      privileged_suc old i,
      ap (privileged old) (shift i f),
    )
  where
    shift : (i f : ℕ) → i + 1 + f ≡ i + suc f
    shift i f = omega arith

-- What a synchronous round does to the ring.
pub record AllMoved (c c' : Ring) : Type 0 where
  pub valid : IsValid c'
  pub variant_eq : c'.variant ≡ c.variant
  pub simultaneous : (j : ℕ) → j < c.num_machines → state_at c' j ≡ state_at (step c (pos j)).1 j

-- A synchronous round of a well-formed ring, of any variant, returns the number of machines whose
-- guard held. Afterwards every machine is in the state to which `ring_step` would have taken it
-- alone from the ring before the round, and the ring is well formed.
pub synchronous_round-AllMoved :
    {c : Ring}
    → IsValid c
    → ((synchronous_round c).0 ≡ pos (privileged c c.num_machines))
      × AllMoved c (synchronous_round c).1
unfolding synchronous_round privileged
synchronous_round-AllMoved {c} w = rw (not_null w) (
  ap pos (
      omega (
        arith,
        sync_loop-count c.num_machines 0 c c 0,
        ap (privileged c) (zero-add c.num_machines),
      )),
  record {
    valid = record {
      sized = r.size ∙ w.sized ∙ sym r.machines_eq;
      two = omega (arith, r.machines_eq, w.two);
      enough = omega (arith, r.states_eq, w.enough);
      bounded = λ i h.
          let shape = step-SameShape c (pos i) in
          omega (
            arith,
            r.states_eq,
            shape.states_eq,
            r.done i (omega (arith, r.machines_eq)),
            (step-IsValid (pos i) w).bounded i (omega (arith, r.machines_eq, shape.machines_eq)),
          );
    };
    variant_eq = r.variant_eq;
    simultaneous = λ j h. r.done j h;
  },
)
  where
    start : Round c 0 c
    start = record {
      size = refl;
      machines_eq = refl;
      states_eq = refl;
      variant_eq = refl;
      done = λ j l. absurd (omega arith);
      todo = λ j l. refl;
    }

    r : Round c c.num_machines (sync_loop c.num_machines 0 c c 0).1
    r = rw zero-add at (sync_loop-Round c.num_machines 0 c c 0 w (omega arith) start)
