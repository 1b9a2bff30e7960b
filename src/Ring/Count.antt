-- ===== src/Ring/Count.antt =====
-- `ring_count_privileges` against the count of privileges on the states.
use mini_distributed_computi.Prelude.{
  ℕ, zero, suc, ◌+◌, ◌≤◌, ◌<◌, ◌≡◌, ◌∙◌, refl, if◌then◌else◌, length, arith, pos, ℕ_discrete, ap,
}
use native.Mathlib.Nat.{add-zero, zero-add}
use native.Mathlib.Numerals.{add-one}
use mini_distributed_computi.Ring.Config.{Ring, privilege_cached, write_privilege}
use mini_distributed_computi.Ring.Privilege.{
  compute_privilege, is_privileged, count_loop, count_privileges,
}
use mini_distributed_computi.Ring.Valid.{
  IsValid, SameStates, SameStates-refl, SameStates-trans, not_null, write_privilege-SameStates,
  privilege_cached-write_privilege, compute_privilege-SameStates,
}

-- the machines among `0`, …, `m - 1` whose guard holds
unfoldable pub privileged : Ring → ℕ → ℕ
privileged c zero = 0
privileged c (suc m) =
    privileged c m + (if is_privileged (compute_privilege c (pos m)) then 1 else 0)

pub privileged-SameStates :
    {c c' : Ring} → SameStates c c' → (m : ℕ) → privileged c' m ≡ privileged c m
unfolding privileged
privileged-SameStates p zero = refl
privileged-SameStates p (suc m) =
    rw (privileged-SameStates p m, compute_privilege-SameStates p (pos m))

-- What the loop does to the ring: it caches the privileges of the machines from `i` on.
pub record Counted (c : Ring) (f i : ℕ) (c' : Ring) : Type 0 where
  pub same : SameStates c c'
  pub cached : (j : ℕ) → i ≤ j → j < i + f → privilege_cached c' j ≡ compute_privilege c (pos j)
  pub kept : (j : ℕ) → j < i → privilege_cached c' j ≡ privilege_cached c j

count_loop-Counted :
    (f i : ℕ) (c : Ring) (k : ℕ) → i + f ≤ length c.machines → Counted c f i (count_loop f i c k).1
unfolding count_loop
count_loop-Counted zero i c k h = record {
  same = SameStates-refl c;
  cached = λ j a b. absurd (omega arith);
  kept = λ j a. refl;
}
count_loop-Counted (suc f) i c k h =
    let p = compute_privilege c (pos i) in
    let c1 = write_privilege c i p in
    let k1 = if is_privileged p then k + 1 else k in
    let s1 = write_privilege-SameStates c i p in
    let ih = count_loop-Counted f (i + 1) c1 k1 (omega (arith, s1.size)) in
    record {
      same = SameStates-trans s1 ih.same;
      cached = λ j a b. elim (ℕ_discrete i j) [
        | yes e ↦
            ih.kept j (omega arith)
            ∙ privilege_cached-write_privilege c i p j (omega arith)
            ∙ rw (← e) (ground arith)
        | no ne ↦ ih.cached j (omega arith) (omega arith) ∙ compute_privilege-SameStates s1 (pos j)
      ];
      kept = λ j a.
          ih.kept j (omega arith)
          ∙ privilege_cached-write_privilege c i p j (omega arith)
          ∙ ground arith;
    }

pub privileged_suc :
    (c : Ring) (i : ℕ)
    → privileged c (i + 1)
      ≡ privileged c i + (if is_privileged (compute_privilege c (pos i)) then 1 else 0)
unfolding privileged
privileged_suc c i = rw add-one

count_loop-count :
    (f i : ℕ) (c : Ring) (k : ℕ)
    → (count_loop f i c k).0 + privileged c i ≡ k + privileged c (i + f)
unfolding count_loop privileged
count_loop-count zero i c k = rw (add-zero)
count_loop-count (suc f) i c k =
    let p = compute_privilege c (pos i) in
    let s1 = write_privilege-SameStates c i p in
    ground (
      arith,
      count_loop-count f (i + 1) (write_privilege c i p) (if is_privileged p then k + 1 else k),
      privileged-SameStates s1 (i + 1),
      privileged-SameStates s1 (i + 1 + f),
      privileged_suc c i,
      ap (privileged c) (shift i f),
    )
  where
    shift : (i f : ℕ) → i + 1 + f ≡ i + suc f
    shift i f = omega arith

-- The count is the number of machines whose guard holds, and the machines cache those guards.
pub count_privileges_lem :
    {c : Ring}
    → IsValid c
    → ((count_privileges c).0 ≡ pos (privileged c c.num_machines))
      × Counted c c.num_machines 0 (count_privileges c).1
unfolding count_privileges privileged
count_privileges_lem {c} v = rw (not_null v) (
  ap pos (
      omega (
        arith,
        count_loop-count c.num_machines 0 c 0,
        ap (privileged c) (zero-add c.num_machines),
      )),
  count_loop-Counted c.num_machines 0 c 0 (omega (arith, v.sized)),
)
