-- ===== src/Raft/LogBounds.antt =====
-- The operations on logs keep the bounds of a server, and its commit index does not fall.
use mini_distributed_computi.Prelude.{
  ℕ, suc, ◌+◌, ◌-◌, ◌≤◌, ◌≡◌, refl, ◌∙◌, inl, inr, Bool, true, false, List, [], ◌∷◌, length, set,
  get_or, length-take, length-append, length-set, leb, ltb, arith, Bool-cases, if◌then◌else◌,
  Option, none, some,
}
use mini_distributed_computi.Paxos.Types.{Value}
use mini_distributed_computi.Raft.Types.{
  LogEntry, Server, AppendEntriesArgs, AppendEntriesReply, max_log_entries, is_leader,
}
use mini_distributed_computi.Raft.Election.{observe_term}
use mini_distributed_computi.Raft.Replication.{
  append_command, cut_conflict, write_entry, no_room, append_loop, too_short, mismatch,
  follow_commit, receive_entries, handle_append_entries, commit_loop, commit_at,
  advance_commit_index, mark_success, mark_failure, handle_append_entries_reply,
}
use mini_distributed_computi.Raft.Commit.{Last, commit_loop-Last}
use mini_distributed_computi.Raft.Advances.{
  Advances, SameStore-Advances, AllPositive-set, observe_term-SameStore,
}

cut_conflict-le :
    (log : List LogEntry) (index : ℕ) (e : LogEntry)
    → length (cut_conflict log index e) ≤ length log
cut_conflict-le log index e = ground (arith, length-take (index - 1) log)

append_loop-bounded :
    (log : List LogEntry) (index : ℕ) (es : List LogEntry)
    → length log ≤ max_log_entries
    → length (append_loop log index es) ≤ max_log_entries
unfolding append_loop
append_loop-bounded log index [] bound = bound
append_loop-bounded log index (e ∷ es) bound = elim (Bool-cases (no_room cut index)) [
  | inl full ↦ rw full cut_bound
  | inr room ↦ rw room (
      append_loop-bounded (write_entry (cut_conflict log index e) index e) (suc index) es
        (written cut cut_bound room))
]
  where
    cut : List LogEntry
    cut = cut_conflict log index e

    cut_bound : length cut ≤ max_log_entries
    cut_bound = omega (arith, cut_conflict-le log index e)

    written :
        (xs : List LogEntry)
        → length xs ≤ max_log_entries
        → no_room xs index ≡ false
        → length (write_entry xs index e) ≤ max_log_entries
    written xs le room = ground (arith, length-append xs (e ∷ []))

pub append_command-Advances : (s : Server) (v : Value) → Advances s (append_command s v).1
unfolding append_command
append_command-Advances s v = elim (Bool-cases (is_leader s.state)) [
  | inr other ↦ rw other (SameStore-Advances s s (refl, refl, refl, refl))
  | inl leads ↦ elim (Bool-cases (leb max_log_entries (length s.log))) [
    | inl full ↦ rw (leads, full) (SameStore-Advances s s (refl, refl, refl, refl))
    | inr room ↦
        rw (leads, room)
          (record {
            bounded = λ b. record {
              log_le =
                  ground (
                    arith,
                    length-append s.log (record { term = s.current_term; command = v } ∷ []),
                  );
              match_size = length-set s.match_index s.node_id (length s.log + 1) ∙ b.match_size;
              next_size = b.next_size;
              next_positive = b.next_positive;
            };
            commit_le = omega arith;
          })
  ]
]

receive_entries-bounded :
    (log : List LogEntry) (commit : ℕ) (args : AppendEntriesArgs)
    → length log ≤ max_log_entries
    → length (receive_entries log commit args).1 ≤ max_log_entries
unfolding receive_entries
receive_entries-bounded log commit args bound =
    elim (Bool-cases (too_short log args.prev_log_index)) [
      | inl short ↦ rw short bound
      | inr long ↦ elim (Bool-cases (mismatch log args)) [
        | inl bad ↦ rw (long, bad) (omega (arith, length-take args.prev_log_index log))
        | inr good ↦
            rw (long, good) (append_loop-bounded log (args.prev_log_index + 1) args.entries bound)
      ]
    ]

follow_commit-le : (commit : ℕ) (args : AppendEntriesArgs) → commit ≤ follow_commit commit args
follow_commit-le commit args = ground arith

receive_entries-commit :
    (log : List LogEntry) (commit : ℕ) (args : AppendEntriesArgs)
    → commit ≤ (receive_entries log commit args).2
unfolding receive_entries
receive_entries-commit log commit args = elim (Bool-cases (too_short log args.prev_log_index)) [
  | inl short ↦ rw short (omega arith)
  | inr long ↦ elim (Bool-cases (mismatch log args)) [
    | inl bad ↦ rw (long, bad) (omega arith)
    | inr good ↦ rw (long, good) (follow_commit-le commit args)
  ]
]

pub handle_append_entries-Advances :
    (s : Server) (args : AppendEntriesArgs) → Advances s (handle_append_entries s args).0
unfolding handle_append_entries
handle_append_entries-Advances s args = elim (Bool-cases (ltb args.term s.current_term)) [
  | inl old ↦ rw old (SameStore-Advances s s (refl, refl, refl, refl))
  | inr new ↦
      let seen = observe_term s args.term in
      let same = SameStore-Advances s seen (observe_term-SameStore s args.term) in
      rw new (record {
        bounded = λ b.
            let c = same.bounded b in
            record {
              log_le = receive_entries-bounded seen.log seen.commit_index args c.log_le;
              match_size = c.match_size;
              next_size = c.next_size;
              next_positive = c.next_positive;
            };
        commit_le =
            omega (arith, same.commit_le, (receive_entries-commit seen.log seen.commit_index args));
      })
]

pub advance_commit_index-Advances :
    (s : Server) (nodes : ℕ) → Advances s (advance_commit_index s nodes)
unfolding advance_commit_index
advance_commit_index-Advances s nodes = elim (Bool-cases (is_leader s.state)) [
  | inr other ↦ rw other (SameStore-Advances s s (refl, refl, refl, refl))
  | inl leads ↦ rw leads (
      at_commit (commit_loop s nodes (length s.log))
        (commit_loop-Last s nodes (length s.log) (omega arith)))
]
  where
    at_commit : (o : Option ℕ) → Last s nodes (length s.log) o → Advances s (commit_at s o)
    at_commit none nothing = SameStore-Advances s s (refl, refl, refl, refl)
    at_commit (some i) (fits, _, _) = record {
      bounded = λ b. record {
        log_le = b.log_le;
        match_size = b.match_size;
        next_size = b.next_size;
        next_positive = b.next_positive;
      };
      commit_le = omega (arith, fits.fresh);
    }

Advances-trans : (s t u : Server) → Advances s t → Advances t u → Advances s u
Advances-trans s t u a b = record {
  bounded = λ h. b.bounded (a.bounded h);
  commit_le = omega (arith, a.commit_le, b.commit_le);
}

pub mark_success-Advances : (s : Server) (from : ℕ) → Advances s (mark_success s from)
mark_success-Advances s from = record {
  bounded = λ b. record {
    log_le = b.log_le;
    match_size = marked (ltb (get_or s.match_index from 0) (length s.log)) ∙ b.match_size;
    next_size = length-set s.next_index from (length s.log + 1) ∙ b.next_size;
    next_positive =
        AllPositive-set s.next_index from (length s.log + 1) (omega arith) b.next_positive;
  };
  commit_le = omega arith;
}
  where
    marked :
        (t : Bool)
        → length (if t then set s.match_index from (length s.log) else s.match_index)
          ≡ length s.match_index
    marked true = length-set s.match_index from (length s.log)
    marked false = refl

pub mark_failure-Advances : (s : Server) (from : ℕ) → Advances s (mark_failure s from)
mark_failure-Advances s from = elim (Bool-cases (ltb 1 (get_or s.next_index from 0))) [
  | inr least ↦ rw least (SameStore-Advances s _ (refl, refl, refl, refl))
  | inl more ↦ rw more (record {
    bounded = λ b. record {
      log_le = b.log_le;
      match_size = b.match_size;
      next_size = length-set s.next_index from (get_or s.next_index from 0 - 1) ∙ b.next_size;
      next_positive =
          AllPositive-set s.next_index from (get_or s.next_index from 0 - 1) (ground arith)
            b.next_positive;
    };
    commit_le = omega arith;
  })
]

pub handle_append_entries_reply-Advances :
    (s : Server) (from : ℕ) (reply : AppendEntriesReply) (nodes : ℕ)
    → Advances s (handle_append_entries_reply s from reply nodes)
unfolding handle_append_entries_reply
handle_append_entries_reply-Advances s from reply nodes = elim (Bool-cases (is_leader s.state)) [
  | inr other ↦ rw other (SameStore-Advances s s (refl, refl, refl, refl))
  | inl leads ↦ elim (Bool-cases (ltb s.current_term reply.term)) [
    | inl up ↦ rw (leads, up) (SameStore-Advances s _ (refl, refl, refl, refl))
    | inr same ↦
        rw (leads, same)
          (elim (Bool-cases reply.success) [
            | inl good ↦ rw good (
                Advances-trans s (mark_success s from) _ (mark_success-Advances s from)
                  (advance_commit_index-Advances _ nodes))
            | inr bad ↦ rw bad (
                Advances-trans s (mark_failure s from) _ (mark_failure-Advances s from)
                  (advance_commit_index-Advances _ nodes))
          ])
  ]
]
