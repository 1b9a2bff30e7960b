-- ===== src/Ring/Valid.antt =====
-- The well-formedness of a ring, and what the writes to one machine do to the states.
use mini_distributed_computi.Prelude.{
  ℕ, zero, suc, ltb, leb, Bool, true, ◌&&◌, ◌≤◌, ◌<◌, ◌≡◌, refl, ◌==◌, if◌then◌else◌, List, [], ◌∷◌,
  length, get_or, set, length-set, get_or-set_self, get_or-set_ne, arith, ℤ, ℕ_discrete, false, pos,
  negsuc, ◌∙◌, ◌-◌, ◌+◌, ◌%◌,
}
use mini_distributed_computi.Ring.Config.{
  Privilege, Variant, three_state, four_state, k_state, Machine, Ring, is_null, blank, state_at,
  privilege_cached, write_state, write_privilege, has_machine, to_index,
}
use mini_distributed_computi.Ring.Privilege.{privilege_at, compute_privilege}
use mini_distributed_computi.Ring.Tokens.{update}

pub record IsValid (c : Ring) : Type 0 where
  pub sized : length c.machines ≡ c.num_machines
  pub two : 2 ≤ c.num_machines
  pub enough : 2 ≤ c.num_states
  pub bounded : (i : ℕ) → i < c.num_machines → state_at c i < c.num_states

-- Two rings that differ in the cached privileges at most.
pub record SameStates (c c' : Ring) : Type 0 where
  pub size : length c'.machines ≡ length c.machines
  pub machines_eq : c'.num_machines ≡ c.num_machines
  pub states_eq : c'.num_states ≡ c.num_states
  pub variant_eq : c'.variant ≡ c.variant
  pub state_eq : (j : ℕ) → state_at c' j ≡ state_at c j

pub SameStates-refl : (c : Ring) → SameStates c c
SameStates-refl c = record {
  size = refl;
  machines_eq = refl;
  states_eq = refl;
  variant_eq = refl;
  state_eq = λ j. refl;
}

pub SameStates-trans : {a b c : Ring} → SameStates a b → SameStates b c → SameStates a c
SameStates-trans p q = record {
  size = cc;
  machines_eq = cc;
  states_eq = cc;
  variant_eq = cc;
  state_eq = λ j. cc (p.state_eq j, q.state_eq j);
}

pub is_null_length : (ms : List Machine) → is_null ms ≡ (length ms == 0)
is_null_length [] = refl
is_null_length (m ∷ ms) = ground arith

pub not_null : {c : Ring} → IsValid c → is_null c.machines ≡ false
not_null {c} v = ground (arith, is_null_length c.machines)

pub SameStates-IsValid : {c c' : Ring} → SameStates c c' → IsValid c → IsValid c'
SameStates-IsValid {c} {c'} p v = record {
  sized = cc (v.sized);
  two = omega arith;
  enough = omega arith;
  bounded = λ i h. omega (arith, p.state_eq i, v.bounded i (omega arith));
}

get_or-set-state :
    (ms : List Machine) (i j v : ℕ)
    → i < length ms
    → (get_or (set ms i (record (get_or ms i blank) { state = v })) j blank).state
      ≡ (if i == j then v else (get_or ms j blank).state)
get_or-set-state ms i j v h = elim (ℕ_discrete i j) [
  | yes e ↦
      rw (← e)
        (ground (arith, get_or-set_self ms i (record (get_or ms i blank) { state = v }) blank h))
  | no ne ↦ ground (arith, get_or-set_ne ms i j (record (get_or ms i blank) { state = v }) blank ne)
]

pub state_at-write_state :
    (c : Ring) (i v j : ℕ)
    → i < length c.machines
    → state_at (write_state c i v) j ≡ update (state_at c) i v j
unfolding write_state
state_at-write_state c i v j h = get_or-set-state c.machines i j v h

get_or-set-privilege :
    (ms : List Machine) (i j : ℕ) (p : Privilege)
    → (get_or (set ms i (record (get_or ms i blank) { privilege = p })) j blank).state
      ≡ (get_or ms j blank).state
get_or-set-privilege [] i j p = refl
get_or-set-privilege (m ∷ ms) zero zero p = refl
get_or-set-privilege (m ∷ ms) zero (suc j) p = refl
get_or-set-privilege (m ∷ ms) (suc i) zero p = refl
get_or-set-privilege (m ∷ ms) (suc i) (suc j) p = get_or-set-privilege ms i j p

pub write_privilege-SameStates :
    (c : Ring) (i : ℕ) (p : Privilege) → SameStates c (write_privilege c i p)
unfolding write_privilege
write_privilege-SameStates c i p = record {
  size = length-set c.machines i _;
  machines_eq = refl;
  states_eq = refl;
  variant_eq = refl;
  state_eq = λ j. get_or-set-privilege c.machines i j p;
}

pub privilege_cached-write_privilege :
    (c : Ring) (i : ℕ) (p : Privilege) (j : ℕ)
    → i < length c.machines
    → privilege_cached (write_privilege c i p) j ≡ (if i == j then p else privilege_cached c j)
unfolding write_privilege
privilege_cached-write_privilege c i p j h = elim (ℕ_discrete i j) [
  | yes e ↦ rw (← e) (
      ground (
        arith,
        get_or-set_self c.machines i (record (get_or c.machines i blank) { privilege = p }) blank h,
      ))
  | no ne ↦ ground (
    arith,
    get_or-set_ne c.machines i j (record (get_or c.machines i blank) { privilege = p }) blank ne,
  )
]

module _ {c c' : Ring} (p : SameStates c c') where
  privilege_at-SameStates : (i : ℕ) (v : Variant) → privilege_at c' i v ≡ privilege_at c i v
  privilege_at-SameStates zero three_state =
      ground (arith, p.state_eq 0, p.state_eq (c.num_machines - 1))
  privilege_at-SameStates zero k_state =
      ground (arith, p.state_eq 0, p.state_eq (c.num_machines - 1))
  privilege_at-SameStates zero four_state =
      ground (arith, p.state_eq 0, p.state_eq ((0 + 1) % c.num_machines))
  privilege_at-SameStates (suc i) three_state = ground (arith, p.state_eq i, p.state_eq (suc i))
  privilege_at-SameStates (suc i) k_state = ground (arith, p.state_eq i, p.state_eq (suc i))
  privilege_at-SameStates (suc i) four_state =
      ground (arith, p.state_eq 0, p.state_eq i, p.state_eq (suc i))

  has_machine-SameStates : (id : ℤ) → has_machine c' id ≡ has_machine c id
  has_machine-SameStates (negsuc i) = refl
  has_machine-SameStates (pos i) =
      ground (arith, is_null_length c.machines, is_null_length c'.machines)

  -- The guards read states alone.
  pub compute_privilege-SameStates : (id : ℤ) → compute_privilege c' id ≡ compute_privilege c id
  unfolding compute_privilege
  compute_privilege-SameStates id =
      rw (has_machine-SameStates id, p.variant_eq, privilege_at-SameStates (to_index id) c.variant)

-- A write of a state keeps the ring well formed.
pub write_state-IsValid :
    {c : Ring} (i v : ℕ)
    → i < c.num_machines
    → v < c.num_states
    → IsValid c
    → IsValid (write_state c i v)
unfolding write_state
write_state-IsValid {c} i v hi hv w = record {
  sized = length-set c.machines i _ ∙ w.sized;
  two = w.two;
  enough = w.enough;
  bounded = λ j h. ground (arith, w.sized, get_or-set-state c.machines i j v, w.bounded j);
}

-- What a write of a state leaves alone.
pub write_state-shape :
    (c : Ring) (i v : ℕ)
    → (length (write_state c i v).machines ≡ length c.machines)
      × ((write_state c i v).num_machines ≡ c.num_machines)
      × ((write_state c i v).num_states ≡ c.num_states)
      × ((write_state c i v).variant ≡ c.variant)
unfolding write_state
write_state-shape c i v = (length-set c.machines i _, refl, refl, refl)

abbrev pub all_below : List Machine → ℕ → Bool
all_below [] k = true
all_below (m ∷ ms) k = ltb m.state k && all_below ms k

all_below-lt :
    (ms : List Machine) (k i : ℕ)
    → all_below ms k ≡ true
    → i < length ms
    → (get_or ms i blank).state < k
all_below-lt [] k i h l = absurd (omega arith)
all_below-lt (m ∷ ms) k zero h l = ground arith
all_below-lt (m ∷ ms) k (suc i) h l = all_below-lt ms k i (ground arith) (omega arith)

-- An executable test of well-formedness.
abbrev pub well_formed : Ring → Bool
well_formed c =
    length c.machines == c.num_machines
    && leb 2 c.num_machines
    && leb 2 c.num_states
    && all_below c.machines c.num_states

pub well_formed-IsValid : (c : Ring) → well_formed c ≡ true → IsValid c
well_formed-IsValid c h = record {
  sized = ground arith;
  two = ground arith;
  enough = ground arith;
  bounded = λ i l. all_below-lt c.machines c.num_states i (ground arith) (ground arith);
}
