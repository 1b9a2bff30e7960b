-- ===== src/Raft/Unsafe.antt =====
-- Where the code gives less than Raft needs: what a leader takes for a copy, and which
-- candidates get a vote.
use mini_distributed_computi.Prelude.{
  ℕ, ◌+◌, ◌≤◌, ◌<◌, ◌≡◌, refl, ◌∙◌, ap, inl, inr, true, false, List, [], ◌∷◌, length, take, leb,
  ltb, arith, Bool-cases, if◌then◌else◌,
}
use mini_distributed_computi.Raft.Types.{
  leader, Server, LogEntry, RequestVoteArgs, AppendEntriesReply, term_at, is_leader,
}
use mini_distributed_computi.Raft.Election.{log_ok, handle_request_vote}
use mini_distributed_computi.Raft.Replication.{
  count_matched, handle_append_entries_reply, mark_success,
}
use mini_distributed_computi.Raft.Commit.{Committable, advance_commit_index-Last}

two_copies :
    (a b l : ℕ) (rest : List ℕ)
    → l ≤ a
    → 2 ≤ count_matched l (take 3 (if ltb b l then a ∷ l ∷ rest else (a ∷ b ∷ rest)))
unfolding count_matched
two_copies a b l rest own = elim (Bool-cases (ltb b l)) [
  | inl behind ↦
      let own_copy : leb l a ≡ true = ground arith in
      let copy : leb l l ≡ true = ground arith in rw (behind, own_copy, copy) (omega arith)
  | inr ahead ↦
      let own_copy : leb l a ≡ true = ground arith in
      let copy : leb l b ≡ true = ground arith in rw (ahead, own_copy, copy) (omega arith)
]

-- In a cluster of three, a leader whose last entry is of its term and not committed commits it as
-- soon as one follower reports a success, whatever message the success answers: the reply does not
-- say which entries the follower has.
pub handle_append_entries_reply-commits :
    (s : Server) (own other : ℕ) (rest : List ℕ) (reply : AppendEntriesReply)
    → s.state ≡ leader
    → s.match_index ≡ own ∷ other ∷ rest
    → length s.log ≤ own
    → s.commit_index < length s.log
    → term_at s.log (length s.log) ≡ s.current_term
    → reply.term ≤ s.current_term
    → reply.success ≡ true
    → (handle_append_entries_reply s 1 reply 3).commit_index ≡ length s.log
unfolding handle_append_entries_reply
handle_append_entries_reply-commits s own other rest reply leads indices has_all new own_term term
      good =
    let leading : is_leader s.state ≡ true = ap is_leader leads in
    let current : ltb s.current_term reply.term ≡ false = ground arith in
    rw (leading, current, good)
      (elim (advance_commit_index-Last (mark_success s 1) 3 leads) [
        | inl (none_fits, _) ↦ absurd (none_fits (length s.log) last)
        | inr (i, fits, top, e) ↦
            ap (λ t. t.commit_index) e ∙ omega (arith, fits.in_log, top (length s.log) last)
      ])
  where
    last : Committable (mark_success s 1) 3 (length s.log)
    last = record {
      fresh = new;
      in_log = omega arith;
      own_term = own_term;
      copied = rw indices (two_copies own other (length s.log) rest has_all);
    }

-- A server grants its vote, in a term that is new to it, to a candidate whose last entry has the
-- same term as its own last entry and an index, counted from 1, that is one less.
pub handle_request_vote-shorter :
    (s : Server) (args : RequestVoteArgs)
    → s.current_term < args.term
    → args.last_log_index + 1 ≡ length s.log
    → args.last_log_term ≡ term_at s.log (length s.log)
    → ((handle_request_vote s args).1.vote_granted ≡ true)
      × ((handle_request_vote s args).0.voted_for ≡ args.candidate_id)
unfolding handle_request_vote log_ok
handle_request_vote-shorter s args newer shorter same_term =
    let current : ltb args.term s.current_term ≡ false = ground arith in
    let up : ltb s.current_term args.term ≡ true = ground arith in
    rw (current, up, accepted s.log shorter same_term) (refl, refl)
  where
    accepted :
        (log : List LogEntry)
        → args.last_log_index + 1 ≡ length log
        → args.last_log_term ≡ term_at log (length log)
        → log_ok log args ≡ true
    accepted [] e t = refl
    accepted (x ∷ xs) e t = ground arith
