-- ===== src/Ring/Guards.antt =====
-- A machine moves exactly when its guard holds, and a move keeps the ring well formed.
use mini_distributed_computi.Prelude.{
  ℕ, zero, suc, ◌+◌, ◌-◌, ◌%◌, ◌≤◌, ◌<◌, ◌≡◌, ◌≢◌, refl, ◌==◌, if◌then◌else◌, arith, ℤ, pos, negsuc,
  minus_one, true, false, Bool-cases, inl, inr,
}
use mini_distributed_computi.Ring.Config.{
  Variant, three_state, four_state, k_state, Ring, state_at, write_state, has_machine,
}
use mini_distributed_computi.Ring.Privilege.{next_state, compute_privilege, is_privileged}
use mini_distributed_computi.Ring.Step.{step, step_three_state, step_four_state, step_k_state}
use mini_distributed_computi.Ring.Valid.{IsValid, write_state-IsValid}

-- 0 if the machine moved, 1 if its guard was false, -1 if there is no such machine.
abbrev pub expected_result : Ring → ℤ → ℤ
expected_result c id =
    if has_machine c id
    then (if is_privileged (compute_privilege c id) then pos 0 else pos 1)
    else minus_one

step_as-result :
    (c : Ring) (id : ℤ) (v : Variant) → c.variant ≡ v → (step c id).0 ≡ expected_result c id
unfolding step step_three_state step_four_state step_k_state compute_privilege
step_as-result c (negsuc i) three_state e = rw e
step_as-result c (negsuc i) four_state e = rw e
step_as-result c (negsuc i) k_state e = rw e
step_as-result c (pos zero) three_state e = rw e (ground arith)
step_as-result c (pos zero) four_state e = rw e (ground arith)
step_as-result c (pos zero) k_state e = rw e (ground arith)
step_as-result c (pos (suc i)) three_state e = rw e (ground arith)
step_as-result c (pos (suc i)) four_state e = rw e (ground arith)
step_as-result c (pos (suc i)) k_state e = rw e (ground arith)

-- For every variant, `ring_step` reports a move exactly when `ring_compute_privilege` gives the
-- machine a privilege, a false guard when it gives none, and an error exactly when the ring has no
-- such machine.
pub step-result : (c : Ring) (id : ℤ) → (step c id).0 ≡ expected_result c id
step-result c id = step_as-result c id c.variant refl

-- A machine that has no privilege leaves the ring as it is.
step_as-idle :
    (c : Ring) (id : ℤ) (v : Variant)
    → c.variant ≡ v
    → is_privileged (compute_privilege c id) ≡ false
    → (step c id).1 ≡ c
unfolding step step_three_state step_four_state step_k_state compute_privilege
step_as-idle c (negsuc i) three_state e h = rw e
step_as-idle c (negsuc i) four_state e h = rw e
step_as-idle c (negsuc i) k_state e h = rw e
step_as-idle c (pos zero) three_state e h = ground arith
step_as-idle c (pos zero) four_state e h = ground arith
step_as-idle c (pos zero) k_state e h = ground arith
step_as-idle c (pos (suc i)) three_state e h = ground arith
step_as-idle c (pos (suc i)) four_state e h = ground arith
step_as-idle c (pos (suc i)) k_state e h = ground arith

pub step_idle :
    (c : Ring) (id : ℤ) → is_privileged (compute_privilege c id) ≡ false → (step c id).1 ≡ c
step_idle c id h = step_as-idle c id c.variant refl h

next_state-lt : (c : Ring) (s : ℕ) → 2 ≤ c.num_states → next_state c s < c.num_states
next_state-lt c s h = omega arith

-- Every move of a machine, if there is one, writes a state of the ring.
record Wrote (c : Ring) (i : ℕ) : Type 0 where
  value : ℕ
  after : (step c (pos i)).1 ≡ write_state c i value
  small : value < c.num_states

step_as-Wrote :
    (c : Ring) (i : ℕ) (v : Variant)
    → c.variant ≡ v
    → IsValid c
    → i < c.num_machines
    → is_privileged (compute_privilege c (pos i)) ≡ true
    → Wrote c i
unfolding step step_three_state step_four_state step_k_state compute_privilege
step_as-Wrote c zero three_state e w h p = record {
  value = next_state c (state_at c (c.num_machines - 1));
  after = ground arith;
  small = next_state-lt c _ w.enough;
}
step_as-Wrote c zero k_state e w h p = record {
  value = next_state c (state_at c 0);
  after = ground arith;
  small = next_state-lt c _ w.enough;
}
step_as-Wrote c zero four_state e w h p = record {
  value = state_at c ((0 + 1) % c.num_machines);
  after = ground arith;
  small = w.bounded _ (omega arith);
}
step_as-Wrote c (suc i) three_state e w h p = record {
  value = state_at c i;
  after = ground arith;
  small = w.bounded i (omega arith);
}
step_as-Wrote c (suc i) k_state e w h p = record {
  value = state_at c i;
  after = ground arith;
  small = w.bounded i (omega arith);
}
step_as-Wrote c (suc i) four_state e w h p = elim (Bool-cases (suc i == c.num_machines - 1)) [
  | inl last ↦ record {
    value = next_state c (state_at c (suc i));
    after = ground arith;
    small = next_state-lt c _ w.enough;
  }
  | inr inner ↦ record {
    value = next_state c (state_at c i);
    after = ground arith;
    small = next_state-lt c _ w.enough;
  }
]

pub out_of_range :
    (c : Ring) (id : ℤ)
    → has_machine c id ≡ false
    → is_privileged (compute_privilege c id) ≡ true
    → ⊥
unfolding compute_privilege
out_of_range c id out p = ground arith

pub in_range : (c : Ring) (i : ℕ) → has_machine c (pos i) ≡ true → i < c.num_machines
in_range c i h = ground arith

-- Every step keeps the ring well formed, for every variant and every machine number.
pub step-IsValid : {c : Ring} (id : ℤ) → IsValid c → IsValid (step c id).1
step-IsValid {c} id w = elim (Bool-cases (is_privileged (compute_privilege c id))) [
  | inr idle ↦ rw (step_idle c id idle) w
  | inl p ↦ moved id p
]
  where
    moved : (id : ℤ) → is_privileged (compute_privilege c id) ≡ true → IsValid (step c id).1
    moved (negsuc i) p = absurd (out_of_range c (negsuc i) refl p)
    moved (pos i) p = elim (Bool-cases (has_machine c (pos i))) [
      | inr out ↦ absurd (out_of_range c (pos i) out p)
      | inl has ↦
          let m = step_as-Wrote c i c.variant refl w (in_range c i has) p in
          rw (m.after) (write_state-IsValid i m.value (in_range c i has) m.small w)
    ]

-- What a machine of a copying ring does when it has the privilege.
pub record Moved (c : Ring) (i : ℕ) : Type 0 where
  pub value : ℕ
  pub after : (step c (pos i)).1 ≡ write_state c i value
  pub at_bottom :
      i ≡ 0
      → (state_at c 0 ≡ state_at c (c.num_machines - 1)) × (value ≡ next_state c (state_at c 0))
  pub above : (j : ℕ) → i ≡ suc j → (state_at c (suc j) ≢ state_at c j) × (value ≡ state_at c j)

Moved-as :
    (c : Ring) (i : ℕ) (v : Variant)
    → c.variant ≡ v
    → v ≢ four_state
    → i < c.num_machines
    → is_privileged (compute_privilege c (pos i)) ≡ true
    → Moved c i
unfolding step step_three_state step_four_state step_k_state compute_privilege
Moved-as c i four_state e ne h p = absurd (ne refl)
Moved-as c zero three_state e ne h p = record {
  value = next_state c (state_at c (c.num_machines - 1));
  after = ground arith;
  at_bottom = λ z. ground arith;
  above = λ j z. ground arith;
}
Moved-as c zero k_state e ne h p = record {
  value = next_state c (state_at c 0);
  after = ground arith;
  at_bottom = λ z. ground arith;
  above = λ j z. ground arith;
}
Moved-as c (suc i) three_state e ne h p = record {
  value = state_at c i;
  after = ground arith;
  at_bottom = λ z. ground arith;
  above = λ j z. let e' : i ≡ j = omega arith in rw (← e') (ground arith);
}
Moved-as c (suc i) k_state e ne h p = record {
  value = state_at c i;
  after = ground arith;
  at_bottom = λ z. ground arith;
  above = λ j z. let e' : i ≡ j = omega arith in rw (← e') (ground arith);
}

pub moved :
    {c : Ring} (i : ℕ)
    → c.variant ≢ four_state
    → i < c.num_machines
    → is_privileged (compute_privilege c (pos i)) ≡ true
    → Moved c i
moved {c} i ne h p = Moved-as c i c.variant refl ne h p

-- What no step changes.
pub record SameShape (c c' : Ring) : Type 0 where
  pub machines_eq : c'.num_machines ≡ c.num_machines
  pub states_eq : c'.num_states ≡ c.num_states
  pub variant_eq : c'.variant ≡ c.variant

step_as-SameShape : (c : Ring) (id : ℤ) (v : Variant) → c.variant ≡ v → SameShape c (step c id).1
unfolding step step_three_state step_four_state step_k_state write_state
step_as-SameShape c id three_state e = ground arith
step_as-SameShape c id four_state e = ground arith
step_as-SameShape c id k_state e = ground arith

pub step-SameShape : (c : Ring) (id : ℤ) → SameShape c (step c id).1
step-SameShape c id = step_as-SameShape c id c.variant refl
