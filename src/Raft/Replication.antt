-- ===== src/Raft/Replication.antt =====
-- src/raft_log_replication.c: the leader appends commands and sends entries, a follower makes its
-- log agree with them, and the leader counts copies and commits. Log indices start at 1. `entries`
-- holds the first `num_entries` entries of a message. The arrays for the other servers have
-- `max_nodes` places.
use mini_distributed_computi.Prelude.{
  ℕ, zero, suc, ◌+◌, ◌-◌, ◌/◌, ltb, leb, ◌==◌, if◌then◌else◌, Bool, true, false, ◌&&◌, not, List,
  [], ◌∷◌, ◌++◌, length, take, drop, get_or, set, Option, none, some, min,
}
use mini_distributed_computi.Paxos.Types.{Value}
use mini_distributed_computi.Raft.Types.{
  max_log_entries, RaftState, follower, candidate, LogEntry, Server, AppendEntriesArgs,
  AppendEntriesReply, step_down, is_leader, term_at,
}
use mini_distributed_computi.Raft.Election.{observe_term}

-- `raft_append_command`: the new index, or 0, and the server
unfoldable pub append_command : Server → Value → ℕ × Server
append_command s v =
    if not (is_leader s.state)
    then (0, s)
    else if leb max_log_entries (length s.log)
    then (0, s)
    else (
      length s.log + 1,
      record s {
        log = s.log ++ (record { term = s.current_term; command = v } ∷ []);
        match_index = set s.match_index s.node_id (length s.log + 1);
      },
    )

abbrev pub prev_term : List LogEntry → ℕ → ℕ
prev_term log prev = if ltb 0 prev && leb prev (length log) then term_at log prev else 0

-- `raft_prepare_append_entries`; `next_index` holds no 0
unfoldable pub prepare_append_entries : Server → ℕ → Option AppendEntriesArgs
prepare_append_entries s to =
    if not (is_leader s.state)
    then none
    else let next = get_or s.next_index to 0 in
      some (record {
        term = s.current_term;
        leader_id = s.node_id;
        prev_log_index = next - 1;
        prev_log_term = prev_term s.log (next - 1);
        entries = take max_log_entries (drop (next - 1) s.log);
        leader_commit = s.commit_index;
      })

-- An entry of another term at the index of a new one goes, with all that follow it.
abbrev pub cut_conflict : List LogEntry → ℕ → LogEntry → List LogEntry
cut_conflict log index e =
    if leb index (length log) && not (term_at log index == e.term)
    then take (index - 1) log
    else log

-- A new entry that is beyond the log is the next one of the log.
abbrev pub write_entry : List LogEntry → ℕ → LogEntry → List LogEntry
write_entry log index e = if ltb (length log) index then log ++ (e ∷ []) else log

abbrev pub no_room : List LogEntry → ℕ → Bool
no_room log index = ltb (length log) index && leb max_log_entries (length log)

-- the loop of rules 3 and 4, from the entry for `index`
unfoldable pub append_loop : List LogEntry → ℕ → List LogEntry → List LogEntry
append_loop log index [] = log
append_loop log index (e ∷ es) =
    let cut = cut_conflict log index e in
    let rest = append_loop (write_entry cut index e) (suc index) es in
    if no_room cut index then cut else rest

-- rule 5
abbrev pub follow_commit : ℕ → AppendEntriesArgs → ℕ
follow_commit commit args =
    let bound = min args.leader_commit (args.prev_log_index + length args.entries) in
    if ltb commit args.leader_commit && ltb commit bound then bound else commit

abbrev pub yield_to_leader : RaftState → RaftState
yield_to_leader candidate = follower
yield_to_leader other = other

-- what rule 2 and the rules after it do, on the log and the commit index
abbrev pub too_short : List LogEntry → ℕ → Bool
too_short log prev = ltb 0 prev && ltb (length log) prev

abbrev pub mismatch : List LogEntry → AppendEntriesArgs → Bool
mismatch log args =
    ltb 0 args.prev_log_index && not (term_at log args.prev_log_index == args.prev_log_term)

unfoldable pub receive_entries : List LogEntry → ℕ → AppendEntriesArgs → Bool × List LogEntry × ℕ
unfolding append_loop
receive_entries log commit args =
    if too_short log args.prev_log_index
    then (false, log, commit)
    else if mismatch log args
    then (false, take args.prev_log_index log, commit)
    else (true, append_loop log (args.prev_log_index + 1) args.entries, follow_commit commit args)

-- the server that has recognized the leader
abbrev pub recognize : Server → Server
recognize s = record s { state = yield_to_leader s.state; election_elapsed_ms = 0 }

-- `raft_handle_append_entries`, which returns true: the server and the reply
unfoldable pub handle_append_entries : Server → AppendEntriesArgs → Server × AppendEntriesReply
unfolding receive_entries
handle_append_entries s args =
    if ltb args.term s.current_term
    then (s, record { term = s.current_term; success = false })
    else let seen = recognize (observe_term s args.term) in
      let result = receive_entries seen.log seen.commit_index args in
      (
        record seen { log = result.1; commit_index = result.2 },
        record { term = seen.current_term; success = result.0 },
      )

-- the servers whose log is known to hold entry `n`
unfoldable pub count_matched : ℕ → List ℕ → ℕ
count_matched n [] = 0
count_matched n (i ∷ is) = (if leb n i then 1 else 0) + count_matched n is

-- the index that the loop of `raft_advance_commit_index` commits, looking down from `n`
unfoldable pub commit_loop : Server → ℕ → ℕ → Option ℕ
unfolding count_matched
commit_loop s nodes zero = none
commit_loop s nodes (suc k) =
    let rest = commit_loop s nodes k in
    if leb (suc k) s.commit_index
    then none
    else if not (term_at s.log (suc k) == s.current_term)
    then rest
    else if leb (nodes / 2 + 1) (count_matched (suc k) (take nodes s.match_index))
    then some (suc k)
    else rest

abbrev pub commit_at : Server → Option ℕ → Server
commit_at s none = s
commit_at s (some n) = record s { commit_index = n }

-- `raft_advance_commit_index`, which returns the commit index of the server
unfoldable pub advance_commit_index : Server → ℕ → Server
unfolding commit_loop
advance_commit_index s nodes =
    if not (is_leader s.state) then s else commit_at s (commit_loop s nodes (length s.log))

-- a success of `from`: everything in the leader's log counts as copied. For an index behind the
-- arrays, at which the source writes out of bounds, nothing changes here, and so for a failure.
abbrev pub mark_success : Server → ℕ → Server
mark_success s from =
    let last = length s.log in
    record s {
      match_index =
          if ltb (get_or s.match_index from 0) last
          then set s.match_index from last
          else s.match_index;
      next_index = set s.next_index from (last + 1);
    }

abbrev pub mark_failure : Server → ℕ → Server
mark_failure s from =
    let next = get_or s.next_index from 0 in
    record s { next_index = if ltb 1 next then set s.next_index from (next - 1) else s.next_index }

-- `raft_handle_append_entries_reply`, which returns the commit index of the server
unfoldable pub handle_append_entries_reply : Server → ℕ → AppendEntriesReply → ℕ → Server
unfolding advance_commit_index
handle_append_entries_reply s from reply nodes =
    if not (is_leader s.state)
    then s
    else if ltb s.current_term reply.term
    then step_down s reply.term
    else advance_commit_index (if reply.success then mark_success s from else mark_failure s from)
        nodes
