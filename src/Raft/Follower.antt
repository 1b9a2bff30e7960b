-- ===== src/Raft/Follower.antt =====
-- `raft_handle_append_entries` as a whole.
use mini_distributed_computi.Prelude.{
  ℕ, suc, ◌+◌, ◌-◌, ◌≤◌, ◌<◌, ◌≡◌, ◌≢◌, refl, sym, ◌∙◌, ap, subst, inl, inr, true, false, List,
  length, take, get_or, get_or-take, length-take, ltb, arith, Bool-cases, ◌==◌, not, ◌&&◌,
}
use mini_distributed_computi.Raft.Types.{
  RaftState, follower, candidate, leader, LogEntry, no_entry, Server, AppendEntriesArgs,
  AppendEntriesReply, max_log_entries, term_at,
}
use mini_distributed_computi.Raft.Election.{observe_term}
use mini_distributed_computi.Raft.Replication.{
  append_loop, receive_entries, too_short, mismatch, recognize, follow_commit, yield_to_leader,
  handle_append_entries,
}
use mini_distributed_computi.Raft.Log.{
  Stored, append_loop-Stored, append_loop-twice, receive_entries-cases,
}

pub observe_term-log : (s : Server) (t : ℕ) → (observe_term s t).log ≡ s.log
observe_term-log s t = elim (Bool-cases (ltb s.current_term t)) [
  | inl up ↦ rw up refl
  | inr same ↦ rw same refl
]

observe_term-current :
    (s : Server) (t : ℕ) → ltb t s.current_term ≡ false → (observe_term s t).current_term ≡ t
observe_term-current s t h = elim (Bool-cases (ltb s.current_term t)) [
  | inl up ↦ rw up refl
  | inr same ↦ rw same (ground arith)
]

-- A success means that the term was not old, and that rules 2 to 5 went through.
pub handle_append_entries-success :
    (s : Server) (args : AppendEntriesArgs)
    → (handle_append_entries s args).1.success ≡ true
    → (ltb args.term s.current_term ≡ false)
      × ((receive_entries s.log (recognize (observe_term s args.term)).commit_index args).0 ≡ true)
      × ((handle_append_entries s args).0.log
          ≡ (receive_entries s.log (recognize (observe_term s args.term)).commit_index args).1)
unfolding handle_append_entries
handle_append_entries-success s args = elim (Bool-cases (ltb args.term s.current_term)) [
  | inl old ↦ rw old (λ e. absurd (ground arith))
  | inr new ↦ rw (new, observe_term-log s args.term) (λ e. (refl, e, refl))
]

-- When a follower whose log is within its bound answers an AppendEntries message with success, and
-- the entries fit, then its log keeps what it had up to `prev_log_index`, has entries of the terms
-- of all the message's entries behind that, in their order, and is within its bound.
pub handle_append_entries-fits :
    (s : Server) (args : AppendEntriesArgs)
    → length s.log ≤ max_log_entries
    → args.prev_log_index + length args.entries ≤ max_log_entries
    → (handle_append_entries s args).1.success ≡ true
    → Stored s.log args.prev_log_index args.entries (handle_append_entries s args).0.log
handle_append_entries-fits s args bound room good =
    let (_, went, log) = handle_append_entries-success s args good in
    let (fits, loop) = receive_entries-cases s.log _ args went in
    subst (Stored s.log args.prev_log_index args.entries) (sym (log ∙ loop))
      (append_loop-Stored s.log args.prev_log_index args.entries fits bound room)

follow_commit-twice :
    (commit : ℕ) (args : AppendEntriesArgs)
    → follow_commit (follow_commit commit args) args ≡ follow_commit commit args
follow_commit-twice commit args = ground arith

-- The test of the previous entry gives the same on a log with the same first entries.
mismatch-same_take :
    (xs ys : List LogEntry) (args : AppendEntriesArgs)
    → take args.prev_log_index xs ≡ take args.prev_log_index ys
    → mismatch xs args ≡ mismatch ys args
mismatch-same_take xs ys args e = elim (Bool-cases (ltb 0 args.prev_log_index)) [
  | inr zero_index ↦ rw zero_index refl
  | inl some_index ↦
      let lt : args.prev_log_index - 1 < args.prev_log_index = ground arith in
      ap (λ t. ltb 0 args.prev_log_index && not (t.term == args.prev_log_term))
        (sym (get_or-take args.prev_log_index xs (args.prev_log_index - 1) no_entry lt)
          ∙ ap (λ zs. get_or zs (args.prev_log_index - 1) no_entry) e
          ∙ get_or-take args.prev_log_index ys (args.prev_log_index - 1) no_entry lt)
]

receive_entries-twice :
    (log : List LogEntry) (commit : ℕ) (args : AppendEntriesArgs)
    → length log ≤ max_log_entries
    → args.prev_log_index + length args.entries ≤ max_log_entries
    → (receive_entries log commit args).0 ≡ true
    → receive_entries (receive_entries log commit args).1 (receive_entries log commit args).2 args
      ≡ receive_entries log commit args
unfolding receive_entries
receive_entries-twice log commit args bound room =
    elim (Bool-cases (too_short log args.prev_log_index)) [
      | inl short ↦ rw short (λ e. absurd (ground arith))
      | inr long ↦ elim (Bool-cases (mismatch log args)) [
        | inl bad ↦ rw (long, bad) (λ e. absurd (ground arith))
        | inr good ↦
            let fits : args.prev_log_index ≤ length log = ground arith in
            let done = append_loop-Stored log args.prev_log_index args.entries fits bound room in
            let still : too_short (append_loop log (suc args.prev_log_index) args.entries)
                  args.prev_log_index
                ≡ false =
              never_short (append_loop log (suc args.prev_log_index) args.entries)
                args.prev_log_index (omega (arith, done.long)) in
            rw
              (
                long,
                good,
                next args.prev_log_index,
                still,
                mismatch-same_take _ log args done.kept,
                good,
                append_loop-twice log args.prev_log_index args.entries fits bound room,
                follow_commit-twice commit args,
              )
              (λ _. refl)
      ]
    ]
  where
    next : (k : ℕ) → k + 1 ≡ suc k
    next k = omega arith

    never_short : (xs : List LogEntry) (k : ℕ) → k ≤ length xs → too_short xs k ≡ false
    never_short xs k h = ground arith

-- the server and the reply of a follower that has recognized the leader
abbrev answer : Server → AppendEntriesArgs → Server × AppendEntriesReply
answer seen args = (
  record seen {
    log = (receive_entries seen.log seen.commit_index args).1;
    commit_index = (receive_entries seen.log seen.commit_index args).2;
  },
  record {
    term = seen.current_term;
    success = (receive_entries seen.log seen.commit_index args).0;
  },
)

handle_append_entries-answer :
    (s : Server) (args : AppendEntriesArgs)
    → ltb args.term s.current_term ≡ false
    → handle_append_entries s args ≡ answer (recognize (observe_term s args.term)) args
unfolding handle_append_entries
handle_append_entries-answer s args new = rw new refl

observe_term-same : (s : Server) (t : ℕ) → s.current_term ≡ t → observe_term s t ≡ s
observe_term-same s t e = let same : ltb s.current_term t ≡ false = ground arith in rw same refl

yield_to_leader-twice : (r : RaftState) → yield_to_leader (yield_to_leader r) ≡ yield_to_leader r
yield_to_leader-twice follower = refl
yield_to_leader-twice candidate = refl
yield_to_leader-twice leader = refl

recognize-twice : (s : Server) → recognize (recognize s) ≡ recognize s
recognize-twice s = rw (yield_to_leader-twice s.state) refl

-- The second answer of a follower that has recognized the leader is the first one again.
module _ (w : Server) (args : AppendEntriesArgs) (term : w.current_term ≡ args.term)
    (same : receive_entries
        (receive_entries w.log w.commit_index args).1
        (receive_entries w.log w.commit_index args).2
        args
      ≡ receive_entries w.log w.commit_index args) where
  abbrev after_first : Server
  after_first = (answer (recognize w) args).0

  recognized : recognize (observe_term after_first args.term) ≡ after_first
  recognized =
      ap recognize (observe_term-same after_first args.term term)
      ∙ rw (yield_to_leader-twice w.state) refl

  answer-same : answer after_first args ≡ answer (recognize w) args
  answer-same = rw same refl

  answer-twice : handle_append_entries after_first args ≡ answer (recognize w) args
  answer-twice =
      handle_append_entries-answer after_first args (not_old args.term term)
      ∙ ap (λ u. answer u args) recognized
      ∙ answer-same
    where
      not_old : (t : ℕ) → w.current_term ≡ t → ltb t w.current_term ≡ false
      not_old t e = ground arith

-- A follower whose log is within its bound and that answers an AppendEntries message with success,
-- where the entries fit, is not changed by a second copy of the message, and answers it alike.
pub handle_append_entries-twice :
    (s : Server) (args : AppendEntriesArgs)
    → length s.log ≤ max_log_entries
    → args.prev_log_index + length args.entries ≤ max_log_entries
    → (handle_append_entries s args).1.success ≡ true
    → handle_append_entries (handle_append_entries s args).0 args ≡ handle_append_entries s args
handle_append_entries-twice s args bound room good =
    let (new, went, _) = handle_append_entries-success s args good in
    let term = observe_term-current s args.term new in
    let w = observe_term s args.term in
    let once = handle_append_entries-answer s args new in
    ap (λ r. handle_append_entries r.0 args) once
    ∙ answer-twice w args term (
        rw (observe_term-log s args.term)
          (receive_entries-twice s.log w.commit_index args bound room went))
    ∙ sym once

-- A follower whose entry at `prev_log_index` has another term than the message says keeps this
-- entry and drops only those behind it, and answers with no success.
pub handle_append_entries-mismatch :
    (s : Server) (args : AppendEntriesArgs)
    → s.current_term ≤ args.term
    → 0 < args.prev_log_index
    → args.prev_log_index ≤ length s.log
    → term_at s.log args.prev_log_index ≢ args.prev_log_term
    → ((handle_append_entries s args).1.success ≡ false)
      × (length (handle_append_entries s args).0.log ≡ args.prev_log_index)
      × (term_at (handle_append_entries s args).0.log args.prev_log_index ≢ args.prev_log_term)
unfolding receive_entries
handle_append_entries-mismatch s args new some_index fits differ =
    let long : too_short s.log args.prev_log_index ≡ false = ground arith in
    let bad : mismatch s.log args ≡ true = ground arith in
    rw (handle_append_entries-answer s args (ground arith), observe_term-log s args.term, long, bad)
      (refl, omega (arith, length-take args.prev_log_index s.log), λ e. differ (sym kept ∙ e))
  where
    kept :
        term_at (take args.prev_log_index s.log) args.prev_log_index
        ≡ term_at s.log args.prev_log_index
    kept =
        ap (λ x. x.term)
          (get_or-take args.prev_log_index s.log (args.prev_log_index - 1) no_entry (omega arith))
