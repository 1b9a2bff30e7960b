-- ===== src/Ring/Access.antt =====
-- Setting a ring up, and reading and writing one machine of it.
use native.Mathlib.Nat.{mod-lt}
use mini_distributed_computi.Prelude.{
  ℕ, zero, suc, ◌+◌, ◌<◌, ◌≤◌, ◌≡◌, ◌≢◌, refl, ap, sym, ◌∙◌, arith, ℤ, pos, negsuc, minus_one, Bool,
  true, false, ◌&&◌, if◌then◌else◌, Bool-cases, inl, inr, ltb, leb, nonneg, lt→ltb, List, [], ◌∷◌,
  length, get_or, eqb_ℤ,
}
use mini_distributed_computi.Ring.Config.{
  Variant, three_state, four_state, k_state, Machine, Ring, max_machines_limit, max_states_limit,
  states_fit, blank, fresh_machines, init, state_at, write_state, has_machine, to_index, set_state,
  get_state, lcg_next, randomize_machines, randomize_states, uniform_machines, set_uniform_state,
}
use mini_distributed_computi.Ring.Privilege.{is_legitimate}
use mini_distributed_computi.Ring.Tokens.{tokens_of_const}
use mini_distributed_computi.Ring.Valid.{
  IsValid, not_null, write_state-IsValid, write_state-shape, state_at-write_state,
}
use mini_distributed_computi.Ring.Closure.{last, privileged-eq-tokens, is_legitimate_iff}

length-fresh_machines : (f n i : ℕ) → length (fresh_machines f n i) ≡ f
unfolding fresh_machines
length-fresh_machines zero n i = refl
length-fresh_machines (suc f) n i = ap suc (length-fresh_machines f n (i + 1))

fresh_machines-state : (f n i j : ℕ) → (get_or (fresh_machines f n i) j blank).state ≡ 0
unfolding fresh_machines
fresh_machines-state zero n i j = refl
fresh_machines-state (suc f) n i zero = refl
fresh_machines-state (suc f) n i (suc j) = fresh_machines-state f n (i + 1) j

-- A ring whose machines are all in one state is legitimate: only the bottom machine may move.
pub uniform-legitimate :
    {c : Ring} (s : ℕ)
    → c.variant ≢ four_state
    → IsValid c
    → ((j : ℕ) → j < c.num_machines → state_at c j ≡ s)
    → (is_legitimate c).0 ≡ true
uniform-legitimate {c} s ne w h =
    (is_legitimate_iff w).1 (privileged-eq-tokens ne w ∙ tokens_of_const (state_at c) (last c) same)
  where
    same : (j : ℕ) → j ≤ last c → state_at c j ≡ state_at c 0
    same j le = h j (omega (arith, w.two)) ∙ sym (h 0 (omega (arith, w.two)))

states_fit-enough : (v : Variant) (n k : ℕ) → 2 ≤ n → states_fit v n k ≡ true → 2 ≤ k
states_fit-enough three_state n k h e = ground arith
states_fit-enough four_state n k h e = ground arith
states_fit-enough k_state n k h e = ground arith

-- What `ring_init` gives when its arguments are accepted.
pub record Fresh (n k : ℕ) (v : Variant) (c : Ring) : Type 0 where
  pub machines_eq : c.num_machines ≡ n
  pub states_eq : c.num_states ≡ k
  pub variant_eq : c.variant ≡ v
  pub valid : IsValid c
  pub at_zero : (j : ℕ) → state_at c j ≡ 0

-- 2 to 1024 machines, and 2 to 65536 states of which the variant has the right number
abbrev pub accepted : ℕ → ℕ → Variant → Bool
accepted n k v =
    leb 2 n && leb n max_machines_limit && leb 2 k && leb k max_states_limit && states_fit v n k

-- With 2 to 1024 machines and 2 to 65536 states, as many as the variant wants (3, 4, or more than
-- machines), `ring_init` returns the number of machines and leaves a well-formed ring of that
-- shape with every machine in state 0.
pub init-Fresh :
    (c : Ring) (n k : ℕ) (v : Variant)
    → accepted n k v ≡ true
    → ((init c (pos n) (pos k) v).0 ≡ pos n) × Fresh n k v (init c (pos n) (pos k) v).1
unfolding init
init-Fresh c n k v e = (
  ground arith,
  rw (stored) (record {
    machines_eq = refl;
    states_eq = refl;
    variant_eq = refl;
    valid = record {
      sized = length-fresh_machines n n 0;
      two = ground arith;
      enough = states_fit-enough v n k (ground arith) (ground arith);
      bounded = λ i h. omega (
        arith,
        fresh_machines-state n n 0 i,
        states_fit-enough v n k (ground arith) (ground arith),
      );
    };
    at_zero = fresh_machines-state n n 0;
  }),
)
  where
    stored :
        (init c (pos n) (pos k) v).1
        ≡ record { machines = fresh_machines n n 0; num_machines = n; num_states = k; variant = v }
    stored = ground arith

-- With any other sizes, negative ones included, `ring_init` returns -1 and leaves the ring alone.
pub init_refused :
    (c : Ring) (n k : ℤ) (v : Variant)
    → (nonneg n && nonneg k && accepted (to_index n) (to_index k) v) ≡ false
    → init c n k v ≡ (minus_one, c)
unfolding init
init_refused c (pos n) (pos k) three_state e = ground arith
init_refused c (pos n) (pos k) four_state e = ground arith
init_refused c (pos n) (pos k) k_state e = ground arith
init_refused c (pos n) (negsuc k) v e = refl
init_refused c (negsuc n) k v e = refl

-- A fresh 3-state or K-state ring has exactly one privilege.
pub init-legitimate :
    (c : Ring) (n k : ℕ) (v : Variant)
    → v ≢ four_state
    → accepted n k v ≡ true
    → (is_legitimate (init c (pos n) (pos k) v).1).0 ≡ true
init-legitimate c n k v ne e =
    let fresh = (init-Fresh c n k v e).1 in
    uniform-legitimate 0 (λ f. ne (sym fresh.variant_eq ∙ f)) fresh.valid (λ j h. fresh.at_zero j)

-- What a well-formed ring shows after `ring_set_state`: on success the one machine holds the state
-- and all others are as before; on an error, which comes exactly for a machine or a state that the
-- ring does not have, nothing has changed. The ring stays well formed.
pub record Stored (c : Ring) (id s : ℤ) (out : ℤ × Ring) : Type 0 where
  pub result :
      out.0
      ≡ (if has_machine c id && nonneg s && ltb (to_index s) c.num_states then pos 0 else minus_one)
  pub valid : IsValid out.1
  pub reads :
      (j : ℤ) → get_state out.1 j ≡ (if eqb_ℤ out.0 (pos 0) && eqb_ℤ j id then s else get_state c j)

get_state-write_state :
    {c : Ring} (i s : ℕ)
    → IsValid c
    → i < c.num_machines
    → s < c.num_states
    → (j : ℤ) → get_state (write_state c i s) j ≡ (if eqb_ℤ j (pos i) then pos s else get_state c j)
unfolding get_state
get_state-write_state i s w h small (negsuc j) = refl
get_state-write_state {c} i s w h small (pos j) = ground (
  arith,
  not_null w,
  not_null (write_state-IsValid i s h small w),
  state_at-write_state c i s j (omega (arith, w.sized)),
  (write_state-shape c i s).1,
)

set_state-write :
    {c : Ring} (i s : ℕ)
    → IsValid c
    → i < c.num_machines
    → s < c.num_states
    → set_state c (pos i) (pos s) ≡ (pos 0, write_state c i s)
unfolding set_state
set_state-write {c} i s w h small = rw (not_null w, lt→ltb _ _ h, lt→ltb _ _ small)

set_state-refused :
    {c : Ring} (i s : ℕ)
    → IsValid c
    → (ltb i c.num_machines && ltb s c.num_states) ≡ false
    → set_state c (pos i) (pos s) ≡ (minus_one, c)
unfolding set_state
set_state-refused {c} i s w h = ground (arith, not_null w)

pub set_state-Stored : {c : Ring} (id s : ℤ) → IsValid c → Stored c id s (set_state c id s)
unfolding set_state get_state
set_state-Stored {c} id (negsuc s) w = record {
  result = ground arith;
  valid = w;
  reads = λ j. refl;
}
set_state-Stored {c} (negsuc i) (pos s) w = record { result = refl; valid = w; reads = λ j. refl }
set_state-Stored {c} (pos i) (pos s) w =
    elim (Bool-cases (ltb i c.num_machines && ltb s c.num_states)) [
      | inr out ↦
          rw (set_state-refused i s w out)
            (record { result = ground (arith, not_null w); valid = w; reads = λ j. refl })
      | inl fits ↦ rw (set_state-write i s w (ground arith) (ground arith)) (record {
        result = ground (arith, not_null w);
        valid = write_state-IsValid i s (ground arith) (ground arith) w;
        reads = get_state-write_state i s w (ground arith) (ground arith);
      })
    ]

length-randomize_machines :
    (ms : List Machine) (k x : ℕ) → length (randomize_machines ms k x) ≡ length ms
unfolding randomize_machines
length-randomize_machines [] k x = refl
length-randomize_machines (m ∷ ms) k x = ap suc (length-randomize_machines ms k (lcg_next x))

randomize_machines-lt :
    (ms : List Machine) (k x j : ℕ) → 2 ≤ k → (get_or (randomize_machines ms k x) j blank).state < k
unfolding randomize_machines
randomize_machines-lt [] k x j h = omega arith
randomize_machines-lt (m ∷ ms) k x zero h = grind (arith, mod-lt)
randomize_machines-lt (m ∷ ms) k x (suc j) h = randomize_machines-lt ms k (lcg_next x) j h

-- Whatever the seed, `ring_randomize_states` leaves a well-formed ring of the same shape.
pub randomize_states-IsValid : {c : Ring} (seed : ℕ) → IsValid c → IsValid (randomize_states c seed)
unfolding randomize_states
randomize_states-IsValid {c} seed w = record {
  sized = length-randomize_machines c.machines c.num_states seed ∙ w.sized;
  two = w.two;
  enough = w.enough;
  bounded = λ i h. randomize_machines-lt c.machines c.num_states seed i w.enough;
}

length-uniform_machines : (ms : List Machine) (s : ℕ) → length (uniform_machines ms s) ≡ length ms
unfolding uniform_machines
length-uniform_machines [] s = refl
length-uniform_machines (m ∷ ms) s = ap suc (length-uniform_machines ms s)

uniform_machines-state :
    (ms : List Machine) (s j : ℕ)
    → j < length ms
    → (get_or (uniform_machines ms s) j blank).state ≡ s
unfolding uniform_machines
uniform_machines-state [] s j h = absurd (omega arith)
uniform_machines-state (m ∷ ms) s zero h = refl
uniform_machines-state (m ∷ ms) s (suc j) h = uniform_machines-state ms s j (omega arith)

set_uniform_state-write :
    {c : Ring} (s : ℕ)
    → IsValid c
    → s < c.num_states
    → IsValid (set_uniform_state c (pos s))
      × ((j : ℕ) → j < c.num_machines → state_at (set_uniform_state c (pos s)) j ≡ s)
unfolding set_uniform_state
set_uniform_state-write {c} s w h = rw (lt→ltb _ _ h) (
  record {
    sized = length-uniform_machines c.machines s ∙ w.sized;
    two = w.two;
    enough = w.enough;
    bounded = λ i l. omega (arith, uniform_machines-state c.machines s i (omega (arith, w.sized)));
  },
  λ j l. uniform_machines-state c.machines s j (omega (arith, w.sized)),
)

set_uniform_state-shape :
    (c : Ring) (s : ℕ)
    → ((set_uniform_state c (pos s)).variant ≡ c.variant)
      × ((set_uniform_state c (pos s)).num_machines ≡ c.num_machines)
unfolding set_uniform_state
set_uniform_state-shape c s = ground arith

-- Setting all machines of a well-formed 3-state or K-state ring to one of its states gives a
-- well-formed legitimate ring: exactly one machine may move.
pub set_uniform_state-legitimate :
    {c : Ring} (s : ℕ)
    → c.variant ≢ four_state
    → IsValid c
    → s < c.num_states
    → IsValid (set_uniform_state c (pos s))
      × ((is_legitimate (set_uniform_state c (pos s))).0 ≡ true)
set_uniform_state-legitimate {c} s ne w h =
    let (valid, all) = set_uniform_state-write s w h in
    let shape = set_uniform_state-shape c s in
    (
      valid,
      uniform-legitimate s (λ e. ne (sym shape.0 ∙ e)) valid
          (λ j l. all j (omega (arith, shape.1))),
    )
