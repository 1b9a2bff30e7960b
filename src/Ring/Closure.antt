-- ===== src/Ring/Closure.antt =====
-- The copying rings (3 and K states): a privilege is always there, and a move adds none.
use mini_distributed_computi.Prelude.{
  ℕ, zero, suc, ◌+◌, ◌-◌, ◌≤◌, ◌<◌, ◌≡◌, ◌≢◌, refl, sym, ◌==◌, if◌then◌else◌, arith, ℤ, pos, negsuc,
  true, Bool-cases, inl, inr, ◌∙◌, fun_ext, ap, ◌↔◌, dec_lt, ==_iff, subst,
}
use native.Mathlib.Nat.{mod-eq_of_lt, mod-eq-sub-mod}
use mini_distributed_computi.Ring.Config.{
  Variant, three_state, four_state, k_state, Ring, state_at, write_state, has_machine,
}
use mini_distributed_computi.Ring.Privilege.{
  next_state, compute_privilege, is_privileged, is_legitimate,
}
use mini_distributed_computi.Ring.Step.{step}
use mini_distributed_computi.Ring.Tokens.{
  update, change, changes, tokens, tokens_pos, tokens-copy-le, tokens-bottom-le,
}
use mini_distributed_computi.Ring.Valid.{IsValid, not_null, state_at-write_state}
use mini_distributed_computi.Ring.Count.{privileged, count_privileges_lem}
use mini_distributed_computi.Ring.Guards.{
  step_idle, step-IsValid, Moved, moved, step-SameShape, out_of_range, in_range,
}

-- the last machine
abbrev pub last : Ring → ℕ
last c = c.num_machines - 1

abbrev pub weight : Ring → ℕ → ℕ
weight c i = if is_privileged (compute_privilege c (pos i)) then 1 else 0

pub weight_bottom :
    {c : Ring} (v : Variant)
    → c.variant ≡ v
    → v ≢ four_state
    → IsValid c
    → weight c 0 ≡ (if state_at c 0 == state_at c (last c) then 1 else 0)
unfolding compute_privilege
weight_bottom four_state e ne w = absurd (ne refl)
weight_bottom three_state e ne w = ground (arith, not_null w)
weight_bottom k_state e ne w = ground (arith, not_null w)

pub weight_above :
    {c : Ring} (i : ℕ) (v : Variant)
    → c.variant ≡ v
    → v ≢ four_state
    → IsValid c
    → suc i < c.num_machines
    → weight c (suc i) ≡ change (state_at c) i
unfolding compute_privilege
weight_above i four_state e ne w h = absurd (ne refl)
weight_above i three_state e ne w h = ground (arith, not_null w)
weight_above i k_state e ne w h = ground (arith, not_null w)

privileged_prefix :
    {c : Ring} (m : ℕ)
    → c.variant ≢ four_state
    → IsValid c
    → m < c.num_machines
    → privileged c (suc m)
      ≡ (if state_at c 0 == state_at c (last c) then 1 else 0) + changes (state_at c) m
unfolding privileged changes
privileged_prefix {c} zero ne w h = omega (arith, weight_bottom c.variant refl ne w)
privileged_prefix {c} (suc m) ne w h =
    omega (arith, privileged_prefix m ne w (omega arith), weight_above m c.variant refl ne w h)

-- The machines of a copying ring that hold a privilege, counted on the states.
pub privileged-eq-tokens :
    {c : Ring}
    → c.variant ≢ four_state
    → IsValid c
    → privileged c c.num_machines ≡ tokens (state_at c) (last c)
unfolding tokens
privileged-eq-tokens {c} ne w =
    let e : c.num_machines ≡ suc (last c) = omega arith in
    ap (privileged c) e ∙ privileged_prefix (last c) ne w (omega arith)

-- Some machine of a copying ring is privileged, whatever the states are.
pub no_deadlock : {c : Ring} → c.variant ≢ four_state → IsValid c → 1 ≤ privileged c c.num_machines
no_deadlock {c} ne w = omega (arith, privileged-eq-tokens ne w, tokens_pos (state_at c) (last c))

-- `(s + 1) % k` is another state than `s`.
pub next_state-ne : (c : Ring) (s : ℕ) → 2 ≤ c.num_states → s < c.num_states → next_state c s ≢ s
next_state-ne c s h b = elim (dec_lt (s + 1) c.num_states) [
  | yes p ↦ omega (arith, mod-eq_of_lt p)
  | no p ↦ omega (
    arith,
    mod-eq-sub-mod {n = s + 1} {m = c.num_states} (omega arith),
    mod-eq_of_lt {n = s + 1 - c.num_states} {m = c.num_states} (omega arith),
  )
]

tokens-ext : (s t : ℕ → ℕ) (m : ℕ) → ((j : ℕ) → s j ≡ t j) → tokens s m ≡ tokens t m
tokens-ext s t m h = ap (λ f. tokens f m) (fun_ext h)

Moved-tokens :
    {c : Ring} (i : ℕ)
    → IsValid c
    → i < c.num_machines
    → (mv : Moved c i)
    → tokens (update (state_at c) i mv.value) (last c) ≤ tokens (state_at c) (last c)
Moved-tokens {c} zero w h mv =
    let (e, v) = mv.at_bottom refl in
    tokens-bottom-le (state_at c) mv.value (last c) e
      (rw v (next_state-ne c (state_at c 0) w.enough (w.bounded 0 h))) (omega arith)
Moved-tokens {c} (suc i) w h mv =
    let (ne, v) = mv.above i refl in rw v (tokens-copy-le (state_at c) i (last c) ne (omega arith))

-- A move of a privileged machine, on the states.
pub tokens-step :
    {c : Ring} (i : ℕ)
    → IsValid c
    → i < c.num_machines
    → (mv : Moved c i)
    → tokens (state_at (step c (pos i)).1) (last c)
      ≡ tokens (update (state_at c) i mv.value) (last c)
tokens-step {c} i w h mv = rw (mv.after) (
    tokens-ext (state_at (write_state c i mv.value)) (update (state_at c) i mv.value) (last c)
      (λ j. state_at-write_state c i mv.value j (omega (arith, w.sized))))

privileged_after :
    {c : Ring} (id : ℤ)
    → c.variant ≢ four_state
    → IsValid c
    → privileged (step c id).1 c.num_machines ≡ tokens (state_at (step c id).1) (last c)
privileged_after {c} id ne w =
    let shape = step-SameShape c id in
    subst (λ n. privileged (step c id).1 n ≡ tokens (state_at (step c id).1) (n - 1))
      shape.machines_eq
      (privileged-eq-tokens (λ e. ne (sym shape.variant_eq ∙ e)) (step-IsValid id w))

-- A step of any machine of a copying ring adds no privilege to the ring.
pub privileged-step-le :
    {c : Ring} (id : ℤ)
    → c.variant ≢ four_state
    → IsValid c
    → privileged (step c id).1 c.num_machines ≤ privileged c c.num_machines
privileged-step-le {c} id ne w = elim (Bool-cases (is_privileged (compute_privilege c id))) [
  | inr idle ↦ rw (step_idle c id idle) (omega arith)
  | inl p ↦ go id p
]
  where
    go :
        (id : ℤ)
        → is_privileged (compute_privilege c id) ≡ true
        → privileged (step c id).1 c.num_machines ≤ privileged c c.num_machines
    go (negsuc i) p = absurd (out_of_range c (negsuc i) refl p)
    go (pos i) p = elim (Bool-cases (has_machine c (pos i))) [
      | inr out ↦ absurd (out_of_range c (pos i) out p)
      | inl has ↦
          let h = in_range c i has in
          let mv = moved i ne h p in
          omega (
            arith,
            privileged_after (pos i) ne w,
            privileged-eq-tokens ne w,
            tokens-step i w h mv,
            Moved-tokens i w h mv,
          )
    ]

-- `ring_is_legitimate` holds exactly of the rings with one privileged machine.
pub is_legitimate_iff :
    {c : Ring} → IsValid c → ((is_legitimate c).0 ≡ true) ↔ (privileged c c.num_machines ≡ 1)
unfolding is_legitimate
is_legitimate_iff {c} w = rw ((count_privileges_lem w).0) (==_iff (privileged c c.num_machines) 1)

-- Closure: from a legitimate copying ring every step of every machine gives a legitimate ring.
pub is_legitimate-step :
    {c : Ring} (id : ℤ)
    → c.variant ≢ four_state
    → IsValid c
    → (is_legitimate c).0 ≡ true
    → (is_legitimate (step c id).1).0 ≡ true
is_legitimate-step {c} id ne w h =
    let shape = step-SameShape c id in
    let w' = step-IsValid id w in
    (is_legitimate_iff w').1 (
      omega (
        arith,
        (is_legitimate_iff w).0 h,
        privileged-step-le id ne w,
        no_deadlock (λ e. ne (sym shape.variant_eq ∙ e)) w',
        ap (privileged (step c id).1) shape.machines_eq,
      ))
