-- ===== src/Raft/Keeps.antt =====
-- What each operation does to a server's identifier, term, vote and leadership: the part of its
-- behaviour that the election rests on.
use mini_distributed_computi.Prelude.{
  ℕ, ◌≤◌, ◌≡◌, inl, inr, refl, ◌∙◌, true, leb, length, Bool-cases, ltb, arith, Option, none, some,
}
use mini_distributed_computi.Paxos.Types.{Value}
use mini_distributed_computi.Raft.Types.{
  RaftState, follower, candidate, leader, Server, AppendEntriesArgs, AppendEntriesReply,
  RequestVoteReply, step_down, is_leader, max_log_entries,
}
use mini_distributed_computi.Raft.Election.{observe_term, handle_request_vote_reply}
use mini_distributed_computi.Raft.Replication.{
  append_command, recognize, yield_to_leader, handle_append_entries, commit_loop, commit_at,
  advance_commit_index, mark_success, mark_failure, handle_append_entries_reply,
}

-- The term does not fall; within a term the vote stays, and nobody becomes a leader.
pub record Keeps (s t : Server) : Type 0 where
  pub same_id : t.node_id ≡ s.node_id
  pub term_le : s.current_term ≤ t.current_term
  pub same_vote : t.current_term ≡ s.current_term → t.voted_for ≡ s.voted_for
  pub led : t.state ≡ leader → (s.state ≡ leader) × (t.current_term ≡ s.current_term)

pub Keeps-refl : (s : Server) → Keeps s s
Keeps-refl s = record {
  same_id = refl;
  term_le = omega arith;
  same_vote = λ _. refl;
  led = λ h. (h, refl);
}

pub Keeps-step_down : (s : Server) (t : ℕ) → ltb s.current_term t ≡ true → Keeps s (step_down s t)
Keeps-step_down s t h = record {
  same_id = refl;
  term_le = ground arith;
  same_vote = λ e. absurd (ground arith);
  led = λ e. absurd (ground arith);
}

Keeps-trans : (s t u : Server) → Keeps s t → Keeps t u → Keeps s u
Keeps-trans s t u k l = record {
  same_id = cc (k.same_id, l.same_id);
  term_le = omega (arith, k.term_le, l.term_le);
  same_vote = λ e.
      l.same_vote (omega (arith, k.term_le, l.term_le))
      ∙ k.same_vote (omega (arith, k.term_le, l.term_le));
  led = λ h. let (a, b) = l.led h in let (c, d) = k.led a in (c, b ∙ d);
}

pub Keeps-observe_term : (s : Server) (t : ℕ) → Keeps s (observe_term s t)
Keeps-observe_term s t = elim (Bool-cases (ltb s.current_term t)) [
  | inl up ↦ rw up (Keeps-step_down s t up)
  | inr same ↦ rw same (Keeps-refl s)
]

Keeps-recognize : (s : Server) → Keeps s (recognize s)
Keeps-recognize s = record {
  same_id = refl;
  term_le = omega arith;
  same_vote = λ _. refl;
  led = λ h. (leads s.state h, refl);
}
  where
    leads : (r : RaftState) → yield_to_leader r ≡ leader → r ≡ leader
    leads leader h = refl
    leads follower h = h
    leads candidate h = absurd (ground arith)

-- a change of the log, the commit index and the indices of the other servers
abbrev pub SameRole : Server → Server → Type 0
SameRole s t =
    (t.node_id ≡ s.node_id)
    × (t.current_term ≡ s.current_term)
    × (t.voted_for ≡ s.voted_for)
    × (t.state ≡ s.state)

pub Keeps-SameRole : (s t : Server) → SameRole s t → Keeps s t
Keeps-SameRole s t (id, term, vote, state) = record {
  same_id = id;
  term_le = omega arith;
  same_vote = λ _. vote;
  led = λ h. (cc (state, h), term);
}

pub Keeps-append_command : (s : Server) (v : Value) → Keeps s (append_command s v).1
unfolding append_command
Keeps-append_command s v = elim (Bool-cases (is_leader s.state)) [
  | inr other ↦ rw other (Keeps-refl s)
  | inl leads ↦ elim (Bool-cases (leb max_log_entries (length s.log))) [
    | inl full ↦ rw (leads, full) (Keeps-refl s)
    | inr room ↦ rw (leads, room) (Keeps-SameRole s _ (refl, refl, refl, refl))
  ]
]

pub Keeps-handle_append_entries :
    (s : Server) (args : AppendEntriesArgs) → Keeps s (handle_append_entries s args).0
unfolding handle_append_entries
Keeps-handle_append_entries s args = elim (Bool-cases (ltb args.term s.current_term)) [
  | inl old ↦ rw old (Keeps-refl s)
  | inr new ↦ rw new (
      Keeps-trans s seen _
        (Keeps-trans s _ seen (Keeps-observe_term s args.term) (Keeps-recognize _))
        (Keeps-SameRole seen _ (refl, refl, refl, refl)))
]
  where
    seen : Server
    seen = recognize (observe_term s args.term)

pub SameRole-advance_commit_index :
    (s : Server) (nodes : ℕ) → SameRole s (advance_commit_index s nodes)
unfolding advance_commit_index
SameRole-advance_commit_index s nodes = elim (Bool-cases (is_leader s.state)) [
  | inr other ↦ rw other (refl, refl, refl, refl)
  | inl leads ↦ rw leads (at_commit (commit_loop s nodes (length s.log)))
]
  where
    at_commit : (o : Option ℕ) → SameRole s (commit_at s o)
    at_commit none = (refl, refl, refl, refl)
    at_commit (some n) = (refl, refl, refl, refl)

pub Keeps-handle_append_entries_reply :
    (s : Server) (from : ℕ) (reply : AppendEntriesReply) (nodes : ℕ)
    → Keeps s (handle_append_entries_reply s from reply nodes)
unfolding handle_append_entries_reply
Keeps-handle_append_entries_reply s from reply nodes = elim (Bool-cases (is_leader s.state)) [
  | inr other ↦ rw other (Keeps-refl s)
  | inl leads ↦ elim (Bool-cases (ltb s.current_term reply.term)) [
    | inl up ↦ rw (leads, up) (Keeps-step_down s reply.term up)
    | inr same ↦
        rw (leads, same)
          (elim (Bool-cases reply.success) [
            | inl good ↦
                rw good
                  (Keeps-SameRole s _ (SameRole-advance_commit_index (mark_success s from) nodes))
            | inr bad ↦
                rw bad
                  (Keeps-SameRole s _ (SameRole-advance_commit_index (mark_failure s from) nodes))
          ])
  ]
]

pub Keeps-handle_request_vote_reply :
    (s : Server) (reply : RequestVoteReply) → Keeps s (handle_request_vote_reply s reply).1
unfolding handle_request_vote_reply
Keeps-handle_request_vote_reply s reply = elim (Bool-cases (ltb s.current_term reply.term)) [
  | inl up ↦ rw up (Keeps-step_down s reply.term up)
  | inr same ↦ rw same (elim (Bool-cases reply.vote_granted) [
    | inl good ↦ rw good (Keeps-refl s)
    | inr bad ↦ rw bad (Keeps-refl s)
  ])
]
