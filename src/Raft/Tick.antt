-- ===== src/Raft/Tick.antt =====
-- `raft_tick` of src/raft_simulator.c: timeouts, and the messages that they cause. The messages are
-- the list of those that the source writes into `out_msgs`, and `num_nodes` is the length of
-- `all_ids`.
use mini_distributed_computi.Prelude.{
  ℕ, ◌+◌, ◌%◌, ◌^◌, leb, ◌==◌, if◌then◌else◌, List, [], ◌∷◌, length, Option, none, some,
}
use mini_distributed_computi.Raft.Types.{
  RaftState, follower, candidate, leader, LogEntry, Server, RequestVoteArgs, RequestVoteReply,
  AppendEntriesArgs, AppendEntriesReply, term_at,
}
use mini_distributed_computi.Raft.Election.{become_candidate}
use mini_distributed_computi.Raft.Replication.{prepare_append_entries}

-- `raft_message_t`, tagged by `raft_rpc_type_t`
pub data RaftMessage : Type 0 where
  request_vote : RequestVoteArgs → RaftMessage
  request_vote_reply : RequestVoteReply → RaftMessage
  append_entries : AppendEntriesArgs → RaftMessage
  append_entries_reply : AppendEntriesReply → RaftMessage

-- the term of the last entry, or 0
abbrev pub last_term : List LogEntry → ℕ
last_term [] = 0
last_term (e ∷ es) = term_at (e ∷ es) (length (e ∷ es))

-- the request of a candidate
abbrev pub vote_request : Server → RaftMessage
vote_request s = request_vote (record {
  term = s.current_term;
  candidate_id = s.node_id;
  last_log_index = length s.log;
  last_log_term = last_term s.log;
})

-- the loop that sends a request to each other server
unfoldable pub vote_requests : Server → List ℕ → List RaftMessage
vote_requests s [] = []
vote_requests s (id ∷ ids) =
    let rest = vote_requests s ids in if id == s.node_id then rest else (vote_request s ∷ rest)

abbrev pub add_heartbeat : Option AppendEntriesArgs → List RaftMessage → List RaftMessage
add_heartbeat none rest = rest
add_heartbeat (some args) rest = append_entries args ∷ rest

-- the loop that sends entries to each other server
unfoldable pub heartbeats : Server → List ℕ → List RaftMessage
heartbeats s [] = []
heartbeats s (id ∷ ids) =
    let rest = heartbeats s ids in
    if id == s.node_id then rest else add_heartbeat (prepare_append_entries s id) rest

abbrev pub run_timer : Server → ℕ → Server
run_timer s elapsed = record s { election_elapsed_ms = (s.election_elapsed_ms + elapsed) % 2 ^ 64 }

-- the cases of a follower and of a candidate
unfoldable pub tick_election : Server → List ℕ → Server × List RaftMessage
unfolding vote_requests
tick_election s ids =
    if leb s.election_timeout_ms s.election_elapsed_ms
    then ((become_candidate s).1, vote_requests (become_candidate s).1 ids)
    else (s, [])

-- the case of a leader
unfoldable pub tick_leader : Server → List ℕ → Server × List RaftMessage
unfolding heartbeats
tick_leader s ids =
    let reset = record s { election_elapsed_ms = 0 } in
    if leb s.heartbeat_timeout_ms s.election_elapsed_ms
    then (reset, heartbeats reset ids)
    else (s, [])

abbrev pub tick_as : RaftState → Server → List ℕ → Server × List RaftMessage
tick_as follower s ids = tick_election s ids
tick_as candidate s ids = tick_election s ids
tick_as leader s ids = tick_leader s ids

-- `raft_tick`
unfoldable pub tick : Server → ℕ → List ℕ → Server × List RaftMessage
unfolding tick_election tick_leader
tick s elapsed ids = tick_as s.state (run_timer s elapsed) ids
