-- ===== src/Ring/Config.antt =====
-- mini-self-stabilization-dijkstra/include/dijkstra_ring.h and the first part of
-- src/dijkstra_ring.c: the ring of machines, its set-up and the access to one machine.
-- Pointers are never NULL, but for `machines`: the empty list stands for the NULL array, which
-- `ring_destroy` leaves. `calloc` never fails. States are natural numbers: every write stores one.
use mini_distributed_computi.Prelude.{
  ℕ, zero, suc, ◌+◌, ◌*◌, ◌-◌, ◌%◌, ◌^◌, ◌==◌, ltb, if◌then◌else◌, Bool, true, false, ◌&&◌, ◌||◌,
  not, List, [], ◌∷◌, get_or, set, ℤ, pos, negsuc, minus_one,
}

-- `privilege_t`
pub data Privilege : Type 0 where
  no_privilege bottom normal top : Privilege

-- `algorithm_variant_t`
pub data Variant : Type 0 where
  three_state four_state k_state : Variant

-- `ring_machine_t`
pub record Machine : Type 0 where
  pub state : ℕ
  pub machine_id : ℕ
  pub is_bottom : Bool
  pub is_top : Bool
  pub privilege : Privilege

-- `ring_configuration_t`
pub record Ring : Type 0 where
  pub machines : List Machine
  pub num_machines : ℕ
  pub num_states : ℕ
  pub variant : Variant

abbrev pub max_machines_limit : ℕ
max_machines_limit = 1024

abbrev pub max_states_limit : ℕ
max_states_limit = 65536

-- What a read outside the array gives; no theorem rests on it.
abbrev pub blank : Machine
blank = record {
  state = 0;
  machine_id = 0;
  is_bottom = false;
  is_top = false;
  privilege = no_privilege;
}

-- the tests of the variant against the number of states, in `ring_init`
abbrev pub states_fit : Variant → ℕ → ℕ → Bool
states_fit three_state n k = k == 3
states_fit four_state n k = k == 4
states_fit k_state n k = ltb n k

-- the machines `i`, …, `n - 1` as `ring_init` sets them up: `f` of them are left
unfoldable pub fresh_machines : ℕ → ℕ → ℕ → List Machine
fresh_machines zero n i = []
fresh_machines (suc f) n i =
    record {
      state = 0;
      machine_id = i;
      is_bottom = i == 0;
      is_top = i == n - 1;
      privilege = no_privilege;
    }
    ∷ fresh_machines f n (i + 1)

init_checked : Ring → ℕ → ℕ → Variant → ℤ × Ring
init_checked c n k v =
    if ltb n 2 || ltb max_machines_limit n
    then (minus_one, c)
    else if ltb k 2 || ltb max_states_limit k
    then (minus_one, c)
    else if not (states_fit v n k)
    then (minus_one, c)
    else (
      pos n,
      record { machines = fresh_machines n n 0; num_machines = n; num_states = k; variant = v },
    )

-- `ring_init`; negative sizes fail the tests `n < 2` and `k < 2`.
unfoldable pub init : Ring → ℤ → ℤ → Variant → ℤ × Ring
unfolding init_checked
init c (pos n) (pos k) v = init_checked c n k v
init c (pos n) (negsuc k) v = (minus_one, c)
init c (negsuc n) k v = (minus_one, c)

-- `ring_destroy`
unfoldable pub destroy : Ring → Ring
destroy c = destroy_if c.machines c
  where
    destroy_if : List Machine → Ring → Ring
    destroy_if [] c = c
    destroy_if (m ∷ ms) c = record c { machines = []; num_machines = 0; num_states = 0 }

-- `!config->machines`
abbrev pub is_null : List Machine → Bool
is_null [] = true
is_null (m ∷ ms) = false

abbrev pub state_at : Ring → ℕ → ℕ
state_at c i = (get_or c.machines i blank).state

abbrev pub privilege_cached : Ring → ℕ → Privilege
privilege_cached c i = (get_or c.machines i blank).privilege

-- `config->machines[i].state = s`
unfoldable pub write_state : Ring → ℕ → ℕ → Ring
write_state c i s = record c {
  machines = set c.machines i (record (get_or c.machines i blank) { state = s });
}

-- `config->machines[i].privilege = p`
unfoldable pub write_privilege : Ring → ℕ → Privilege → Ring
write_privilege c i p = record c {
  machines = set c.machines i (record (get_or c.machines i blank) { privilege = p });
}

-- The tests `!config->machines`, `machine_id < 0` and `machine_id >= config->num_machines`.
abbrev pub has_machine : Ring → ℤ → Bool
has_machine c (pos i) = not (is_null c.machines) && ltb i c.num_machines
has_machine c (negsuc i) = false

abbrev pub to_index : ℤ → ℕ
to_index (pos i) = i
to_index (negsuc i) = 0

-- `ring_set_state`
unfoldable pub set_state : Ring → ℤ → ℤ → ℤ × Ring
unfolding write_state
set_state c id (negsuc s) = (minus_one, c)
set_state c id (pos s) =
    if has_machine c id
    then (if ltb s c.num_states then (pos 0, write_state c (to_index id) s) else (minus_one, c))
    else (minus_one, c)

-- `ring_get_state`
unfoldable pub get_state : Ring → ℤ → ℤ
get_state c id = if has_machine c id then pos (state_at c (to_index id)) else minus_one

-- the generator of `ring_randomize_states`, whose products fit 64 bits
abbrev pub lcg_next : ℕ → ℕ
lcg_next x = (1103515245 * x + 12345) % 2 ^ 31

unfoldable pub randomize_machines : List Machine → ℕ → ℕ → List Machine
randomize_machines [] k x = []
randomize_machines (m ∷ ms) k x =
    record m { state = lcg_next x % k; privilege = no_privilege }
    ∷ randomize_machines ms k (lcg_next x)

-- `ring_randomize_states`, for a ring whose array has `num_machines` entries
unfoldable pub randomize_states : Ring → ℕ → Ring
unfolding randomize_machines
randomize_states c seed = record c { machines = randomize_machines c.machines c.num_states seed }

unfoldable pub uniform_machines : List Machine → ℕ → List Machine
uniform_machines [] s = []
uniform_machines (m ∷ ms) s =
    record m { state = s; privilege = no_privilege } ∷ uniform_machines ms s

-- `ring_set_uniform_state`, for a ring whose array has `num_machines` entries
unfoldable pub set_uniform_state : Ring → ℤ → Ring
unfolding uniform_machines
set_uniform_state c (negsuc s) = c
set_uniform_state c (pos s) =
    if ltb s c.num_states then record c { machines = uniform_machines c.machines s } else c
