-- ===== src/Raft/Commit.antt =====
-- What a leader commits.
use mini_distributed_computi.Prelude.{
  ℕ, zero, suc, ◌+◌, ◌/◌, ◌≤◌, ◌<◌, ◌≡◌, ◌⊎◌, refl, ap, inl, inr, true, false, length, take, leb,
  subst, ==_iff, ℕ_discrete, arith, Bool-cases, Option, none, some, ◌==◌,
}
use mini_distributed_computi.Raft.Types.{leader, Server, term_at, is_leader}
use mini_distributed_computi.Raft.Replication.{
  count_matched, commit_loop, commit_at, advance_commit_index,
}

-- Entry `k` may be committed: it is new, of the leader's term, and known to be on a majority.
pub record Committable (s : Server) (nodes k : ℕ) : Type 0 where
  pub fresh : s.commit_index < k
  pub in_log : k ≤ length s.log
  pub own_term : term_at s.log k ≡ s.current_term
  pub copied : nodes / 2 + 1 ≤ count_matched k (take nodes s.match_index)

-- `o` is the last committable index up to `n`, if there is one.
abbrev pub Last : Server → ℕ → ℕ → Option ℕ → Type 0
Last s nodes n none = (k : ℕ) → k ≤ n → ¬ Committable s nodes k
Last s nodes n (some i) =
    Committable s nodes i × (i ≤ n) × ((k : ℕ) → k ≤ n → Committable s nodes k → k ≤ i)

-- Index `suc n` cannot be committed, so the search below it gives the answer.
Last-skip :
    (s : Server) (nodes n : ℕ) (o : Option ℕ)
    → ¬ Committable s nodes (suc n)
    → Last s nodes n o
    → Last s nodes (suc n) o
Last-skip s nodes n o no_top rest = go o rest
  where
    below : (k : ℕ) → k ≤ suc n → Committable s nodes k → k ≤ n
    below k le p = elim (ℕ_discrete k (suc n)) [
      | yes e ↦ absurd (no_top (subst (Committable s nodes) e p))
      | no ne ↦ omega arith
    ]

    go : (o : Option ℕ) → Last s nodes n o → Last s nodes (suc n) o
    go none nothing = λ k le p. nothing k (below k le p) p
    go (some i) (good, low, top) = (good, omega arith, λ k le p. top k (below k le p) p)

pub commit_loop-Last :
    (s : Server) (nodes n : ℕ) → n ≤ length s.log → Last s nodes n (commit_loop s nodes n)
unfolding commit_loop
commit_loop-Last s nodes zero le = λ k low p. omega (arith, p.fresh)
commit_loop-Last s nodes (suc n) le = elim (Bool-cases (leb (suc n) s.commit_index)) [
  | inl old ↦ rw old (λ k low p. ground (arith, p.fresh))
  | inr new ↦ elim (Bool-cases (term_at s.log (suc n) == s.current_term)) [
    | inr other ↦
        rw (new, other)
          (Last-skip s nodes n (commit_loop s nodes n) (λ p. other_term p.own_term other)
            (commit_loop-Last s nodes n (omega arith)))
    | inl own ↦
        elim (Bool-cases (leb (nodes / 2 + 1) (count_matched (suc n) (take nodes s.match_index)))) [
          | inr few ↦
              rw (new, own, few)
                (Last-skip s nodes n (commit_loop s nodes n) (λ p. ground (arith, p.copied))
                  (commit_loop-Last s nodes n (omega arith)))
          | inl many ↦
              rw (new, own, many)
                (
                  record {
                    fresh = ground arith;
                    in_log = le;
                    own_term = (==_iff (term_at s.log (suc n)) s.current_term).0 own;
                    copied = ground arith;
                  },
                  omega arith,
                  λ k low p. low,
                )
        ]
  ]
]
  where
    other_term : {a b : ℕ} → a ≡ b → (a == b) ≡ false → ⊥
    other_term e h = ground arith

-- When a leader looks for entries to commit in a cluster of `nodes` servers, then either its commit
-- index becomes the last index that is new, of its own term, and copied to a majority, and nothing
-- else of the server changes, or no index is such and the server stays as it is.
pub advance_commit_index-Last :
    (s : Server) (nodes : ℕ)
    → s.state ≡ leader
    → ((k : ℕ) → ¬ Committable s nodes k) × (advance_commit_index s nodes ≡ s)
      ⊎ (i : ℕ) × Committable s nodes i
        × ((k : ℕ) → Committable s nodes k → k ≤ i)
        × (advance_commit_index s nodes ≡ record s { commit_index = i })
unfolding advance_commit_index
advance_commit_index-Last s nodes leads =
    let leading : is_leader s.state ≡ true = ap is_leader leads in
    rw leading (
      outcome (commit_loop s nodes (length s.log))
        (commit_loop-Last s nodes (length s.log) (omega arith)))
  where
    outcome :
        (o : Option ℕ)
        → Last s nodes (length s.log) o
        → ((k : ℕ) → ¬ Committable s nodes k) × (commit_at s o ≡ s)
          ⊎ (i : ℕ) × Committable s nodes i
            × ((k : ℕ) → Committable s nodes k → k ≤ i)
            × (commit_at s o ≡ record s { commit_index = i })
    outcome none nothing = inl (λ k p. nothing k p.in_log p, refl)
    outcome (some i) (good, _, top) = inr (i, good, λ k p. top k p.in_log p, refl)
