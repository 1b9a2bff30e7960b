-- ===== src/Ring/Tokens.antt =====
-- Counting privileges of the copying rings (3 and K states) on a family of states alone.
use mini_distributed_computi.Prelude.{
  ℕ, zero, suc, ◌+◌, ◌≤◌, ◌<◌, ◌≡◌, ◌≢◌, refl, ◌==◌, if◌then◌else◌, arith, dec_lt, ℕ_discrete,
  subst, sym,
}

abbrev pub update : (ℕ → ℕ) → ℕ → ℕ → ℕ → ℕ
update s i v j = if i == j then v else s j

-- one if machine `j + 1` differs from machine `j`
abbrev pub change : (ℕ → ℕ) → ℕ → ℕ
change s j = if s (suc j) == s j then 0 else 1

-- the machines among `1`, …, `m` that differ from the one before
unfoldable pub changes : (ℕ → ℕ) → ℕ → ℕ
changes s zero = 0
changes s (suc m) = changes s m + change s m

-- The privileges of a ring of `m + 1` machines.
unfoldable pub tokens : (ℕ → ℕ) → ℕ → ℕ
unfolding changes
tokens s m = (if s 0 == s m then 1 else 0) + changes s m

-- With no change along the ring all machines agree with the bottom one.
pub changes-eq-zero : (s : ℕ → ℕ) (m j : ℕ) → changes s m ≡ 0 → j ≤ m → s j ≡ s 0
unfolding changes
changes-eq-zero s zero j h le = let e : j ≡ 0 = omega arith in rw e
changes-eq-zero s (suc m) j h le = elim (dec_lt j (suc m)) [
  | yes below ↦ changes-eq-zero s m j (omega arith) (omega arith)
  | no last ↦ let e : j ≡ suc m = omega arith in rw e (ground (arith, changes-eq-zero s m m))
]

changes_of_const : (s : ℕ → ℕ) (m : ℕ) → ((j : ℕ) → j ≤ m → s j ≡ s 0) → changes s m ≡ 0
unfolding changes
changes_of_const s zero h = refl
changes_of_const s (suc m) h = ground (
  arith,
  changes_of_const s m (λ j p. h j (omega arith)),
  h m (omega arith),
  h (suc m) (omega arith),
)

pub tokens_of_const : (s : ℕ → ℕ) (m : ℕ) → ((j : ℕ) → j ≤ m → s j ≡ s 0) → tokens s m ≡ 1
unfolding tokens
tokens_of_const s m h = ground (arith, changes_of_const s m h, h m (omega arith))

-- Some machine is privileged, whatever the states are.
pub tokens_pos : (s : ℕ → ℕ) (m : ℕ) → 1 ≤ tokens s m
unfolding tokens
tokens_pos s m = elim (ℕ_discrete (changes s m) 0) [
  | yes e ↦ ground (arith, changes-eq-zero s m m e)
  | no ne ↦ omega arith
]

changes-update_past : (s : ℕ → ℕ) (i v m : ℕ) → m < i → changes (update s i v) m ≡ changes s m
unfolding changes
changes-update_past s i v zero h = refl
changes-update_past s i v (suc m) h = ground (arith, changes-update_past s i v m)

-- A machine that copies its left neighbour `i` loses its own change.
changes-copy_self :
    (s : ℕ → ℕ) (i : ℕ)
    → s (suc i) ≢ s i
    → changes (update s (suc i) (s i)) (suc i) + 1 ≡ changes s (suc i)
unfolding changes
changes-copy_self s i h = ground (arith, changes-update_past s (suc i) (s i) i)

-- The machine after it gains a change at most.
changes-copy-le :
    (s : ℕ → ℕ) (i m : ℕ)
    → s (suc i) ≢ s i
    → suc i < m
    → changes (update s (suc i) (s i)) m ≤ changes s m
unfolding changes
changes-copy-le s i zero h le = absurd (omega arith)
changes-copy-le s i (suc m) h le = elim (ℕ_discrete m (suc i)) [
  | yes e ↦ rw e (ground (arith, changes-copy_self s i h))
  | no ne ↦ ground (arith, changes-copy-le s i m h)
]

-- The bottom machine changes only the first difference.
changes-bottom-le : (s : ℕ → ℕ) (v m : ℕ) → changes (update s 0 v) m ≤ changes s m + 1
unfolding changes
changes-bottom-le s v zero = omega arith
changes-bottom-le s v (suc zero) = ground arith
changes-bottom-le s v (suc (suc m)) = ground (arith, changes-bottom-le s v (suc m))

-- A machine that copies its left neighbour adds no privilege to the ring.
pub tokens-copy-le :
    (s : ℕ → ℕ) (i m : ℕ)
    → s (suc i) ≢ s i
    → suc i ≤ m
    → tokens (update s (suc i) (s i)) m ≤ tokens s m
unfolding tokens
tokens-copy-le s i m h le = elim (ℕ_discrete m (suc i)) [
  | yes e ↦ rw e (ground (arith, changes-copy_self s i h))
  | no ne ↦ ground (arith, changes-copy-le s i m h)
]

-- Nor does the bottom machine, when it leaves the state of the last one.
pub tokens-bottom-le :
    (s : ℕ → ℕ) (v m : ℕ) → s 0 ≡ s m → v ≢ s 0 → 0 < m → tokens (update s 0 v) m ≤ tokens s m
unfolding tokens
tokens-bottom-le s v m e ne pos = ground (arith, changes-bottom-le s v m)

-- The machines among `1`, …, `m` that differ from the bottom one.
unfoldable pub differ : (ℕ → ℕ) → ℕ → ℕ
differ s zero = 0
differ s (suc m) = differ s m + (if s (suc m) == s 0 then 0 else 1)

pub differ-le : (s : ℕ → ℕ) (m : ℕ) → differ s m ≤ m
unfolding differ
differ-le s zero = omega arith
differ-le s (suc m) = ground (arith, differ-le s m)

differ-update_past :
    (s : ℕ → ℕ) (i v m : ℕ) → m < suc i → differ (update s (suc i) v) m ≡ differ s m
unfolding differ
differ-update_past s i v zero h = refl
differ-update_past s i v (suc m) h = ground (arith, differ-update_past s i v m)

pub differ-update :
    (s : ℕ → ℕ) (i m : ℕ)
    → s (suc i) ≢ s 0
    → suc i ≤ m
    → differ (update s (suc i) (s 0)) m + 1 ≡ differ s m
unfolding differ
differ-update s i zero h le = absurd (omega arith)
differ-update s i (suc m) h le = elim (ℕ_discrete m i) [
  | yes e ↦ rw e (ground (arith, differ-update_past s i (s 0) i))
  | no ne ↦ ground (arith, differ-update s i m h)
]

-- Moves of the first privileged machine that are left until one privilege is.
unfoldable pub need : (ℕ → ℕ) → ℕ → ℕ
unfolding tokens differ
need s m = if tokens s m == 1 then 0 else (if s 0 == s m then suc m else differ s m)

pub need-le : (s : ℕ → ℕ) (m : ℕ) → need s m ≤ suc m
unfolding need
need-le s m = ground (arith, differ-le s m)

pub need-bottom-lt :
    (s : ℕ → ℕ) (v m : ℕ)
    → tokens s m ≢ 1
    → s 0 ≡ s m
    → v ≢ s 0
    → 0 < m
    → need (update s 0 v) m < need s m
unfolding need
need-bottom-lt s v m ne e nv pos = ground (arith, differ-le (update s 0 v) m)

-- The last machine copies the bottom state, which all machines then hold.
tokens-copy_last :
    (s : ℕ → ℕ) (i : ℕ)
    → ((j : ℕ) → j ≤ i → s j ≡ s 0)
    → tokens (update s (suc i) (s i)) (suc i) ≡ 1
unfolding tokens
tokens-copy_last s i all = ground (
  arith,
  all i (omega arith),
  changes_of_const (update s (suc i) (s i)) (suc i) (λ j p. ground (arith, all j, all i)),
)

pub need-copy-lt :
    (s : ℕ → ℕ) (i m : ℕ)
    → tokens s m ≢ 1
    → s 0 ≢ s m
    → suc i ≤ m
    → ((j : ℕ) → j ≤ i → s j ≡ s 0)
    → s (suc i) ≢ s i
    → need (update s (suc i) (s i)) m < need s m
unfolding need
need-copy-lt s i m ne open_end le all h = elim (ℕ_discrete m (suc i)) [
  | yes e ↦ ground (
    arith,
    all i (omega arith),
    subst (λ k. tokens (update s (suc i) (s i)) k ≡ 1) (sym e) (tokens-copy_last s i all),
    differ-update s i m,
  )
  | no ne' ↦ ground (arith, all i (omega arith), differ-update s i m)
]
