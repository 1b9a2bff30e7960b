-- ===== src/Raft/Advances.antt =====
-- What each operation of a server keeps of the bounds of its arrays and of its commit index.
use mini_distributed_computi.Prelude.{
  ℕ, zero, suc, ◌+◌, ◌≤◌, ◌<◌, ◌≡◌, refl, sym, ◌∙◌, ap, subst, inl, inr, List, length, set,
  replicate, get_or, length-set, length-replicate, get_or-set_self, get_or-set_ne, ltb, arith,
  Bool-cases, ℕ_discrete,
}
use mini_distributed_computi.Paxos.Types.{max_nodes}
use mini_distributed_computi.Raft.Types.{Server, RequestVoteArgs, RequestVoteReply, max_log_entries}
use mini_distributed_computi.Raft.Election.{
  become_candidate, observe_term, grants, handle_request_vote, handle_request_vote_reply,
  become_leader,
}

abbrev pub AllPositive : List ℕ → Type 0
AllPositive xs = (i : ℕ) → i < length xs → 0 < get_or xs i 0

-- The log is within its array, the indices of the other servers fill theirs, and no next index is
-- 0, so that `raft_prepare_append_entries` reads no entry before the log.
pub record IsBounded (s : Server) : Type 0 where
  pub log_le : length s.log ≤ max_log_entries
  pub match_size : length s.match_index ≡ max_nodes
  pub next_size : length s.next_index ≡ max_nodes
  pub next_positive : AllPositive s.next_index

-- the part of a server that these bounds are about
pub record Advances (s t : Server) : Type 0 where
  pub bounded : IsBounded s → IsBounded t
  pub commit_le : s.commit_index ≤ t.commit_index

abbrev pub SameStore : Server → Server → Type 0
SameStore s t =
    (t.log ≡ s.log)
    × (t.commit_index ≡ s.commit_index)
    × (t.next_index ≡ s.next_index)
    × (t.match_index ≡ s.match_index)

pub SameStore-Advances : (s t : Server) → SameStore s t → Advances s t
SameStore-Advances s t (log, commit, next, copies) = record {
  bounded = λ b. record {
    log_le = rw log (b.log_le);
    match_size = ap length copies ∙ b.match_size;
    next_size = ap length next ∙ b.next_size;
    next_positive = subst AllPositive (sym next) b.next_positive;
  };
  commit_le = omega (arith, commit);
}

pub AllPositive-replicate : (n v : ℕ) → 0 < v → AllPositive (replicate n v)
AllPositive-replicate zero v h i lt = absurd (omega arith)
AllPositive-replicate (suc n) v h zero lt = h
AllPositive-replicate (suc n) v h (suc i) lt = AllPositive-replicate n v h i (omega arith)

pub AllPositive-set : (xs : List ℕ) (k v : ℕ) → 0 < v → AllPositive xs → AllPositive (set xs k v)
AllPositive-set xs k v h all i lt = elim (ℕ_discrete k i) [
  | yes e ↦
      subst (λ j. 0 < get_or (set xs k v) j 0) e
        (subst (λ u. 0 < u) (sym (get_or-set_self xs k v 0 (omega (arith, length-set xs k v)))) h)
  | no ne ↦
      subst (λ u. 0 < u) (sym (get_or-set_ne xs k i v 0 ne))
        (all i (omega (arith, length-set xs k v)))
]

pub become_candidate-Advances : (s : Server) → Advances s (become_candidate s).1
unfolding become_candidate
become_candidate-Advances s = SameStore-Advances s _ (refl, refl, refl, refl)

pub observe_term-SameStore : (s : Server) (t : ℕ) → SameStore s (observe_term s t)
observe_term-SameStore s t = elim (Bool-cases (ltb s.current_term t)) [
  | inl up ↦ rw up (refl, refl, refl, refl)
  | inr same ↦ rw same (refl, refl, refl, refl)
]

pub handle_request_vote-Advances :
    (s : Server) (args : RequestVoteArgs) → Advances s (handle_request_vote s args).0
unfolding handle_request_vote
handle_request_vote-Advances s args = elim (Bool-cases (ltb args.term s.current_term)) [
  | inl old ↦ rw old (SameStore-Advances s s (refl, refl, refl, refl))
  | inr new ↦ elim (Bool-cases (grants (observe_term s args.term) args)) [
    | inl good ↦ rw (new, good) (SameStore-Advances s _ (observe_term-SameStore s args.term))
    | inr refused ↦ rw (new, refused) (SameStore-Advances s _ (observe_term-SameStore s args.term))
  ]
]

pub handle_request_vote_reply-Advances :
    (s : Server) (reply : RequestVoteReply) → Advances s (handle_request_vote_reply s reply).1
unfolding handle_request_vote_reply
handle_request_vote_reply-Advances s reply = elim (Bool-cases (ltb s.current_term reply.term)) [
  | inl up ↦ rw up (SameStore-Advances s _ (refl, refl, refl, refl))
  | inr same ↦ rw same (elim (Bool-cases reply.vote_granted) [
    | inl good ↦ rw good (SameStore-Advances s s (refl, refl, refl, refl))
    | inr refused ↦ rw refused (SameStore-Advances s s (refl, refl, refl, refl))
  ])
]

pub become_leader-Advances : (s : Server) → Advances s (become_leader s)
unfolding become_leader
become_leader-Advances s = record {
  bounded = λ b. record {
    log_le = b.log_le;
    match_size = length-replicate {A = ℕ} max_nodes 0;
    next_size = length-replicate max_nodes (length s.log + 1);
    next_positive = AllPositive-replicate max_nodes (length s.log + 1) (omega arith);
  };
  commit_le = omega arith;
}
