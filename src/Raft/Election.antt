-- ===== src/Raft/Election.antt =====
-- src/raft_leader_election.c: terms, votes and the change to candidate and leader.
use mini_distributed_computi.Prelude.{
  ℕ, ◌+◌, ◌-◌, ◌/◌, ◌%◌, ◌^◌, ltb, leb, ◌==◌, if◌then◌else◌, Bool, true, false, ◌&&◌, ◌||◌, not,
  List, [], ◌∷◌, length, replicate,
}
use mini_distributed_computi.Paxos.Types.{max_nodes}
use mini_distributed_computi.Raft.Types.{
  follower, candidate, leader, Server, LogEntry, RequestVoteArgs, RequestVoteReply, not_voted,
  step_down, term_at,
}

-- `raft_server_init`, which leaves `num_nodes` unread
unfoldable pub server_init : ℕ → ℕ → Server
server_init id timeout = record {
  node_id = id;
  state = follower;
  current_term = 0;
  voted_for = not_voted;
  log = [];
  commit_index = 0;
  last_applied = 0;
  next_index = replicate max_nodes 1;
  match_index = replicate max_nodes 0;
  election_timeout_ms = timeout;
  election_elapsed_ms = 0;
  heartbeat_timeout_ms = timeout / 4;
}

-- `raft_become_candidate`, which returns true
unfoldable pub become_candidate : Server → Bool × Server
become_candidate s = (
  true,
  record s {
    current_term = (s.current_term + 1) % 2 ^ 64;
    state = candidate;
    voted_for = s.node_id;
    election_elapsed_ms = 0;
  },
)

-- the server after the test of a request's term
abbrev pub observe_term : Server → ℕ → Server
observe_term s t = if ltb s.current_term t then step_down s t else s

abbrev pub can_vote : Server → ℕ → Bool
can_vote s id = s.voted_for == not_voted || s.voted_for == id

-- `log_ok`: `last_idx` counts the receiver's entries from 0
unfoldable pub log_ok : List LogEntry → RequestVoteArgs → Bool
log_ok [] args = true
log_ok (e ∷ es) args =
    ltb (term_at (e ∷ es) (length (e ∷ es))) args.last_log_term
    || (args.last_log_term == term_at (e ∷ es) (length (e ∷ es))
        && leb (length (e ∷ es) - 1) args.last_log_index)

abbrev pub grants : Server → RequestVoteArgs → Bool
grants s args = can_vote s args.candidate_id && log_ok s.log args

abbrev pub grant : Server → ℕ → Server
grant s id = record s { voted_for = id; election_elapsed_ms = 0 }

-- `raft_handle_request_vote`, which returns true: the server and the reply
unfoldable pub handle_request_vote : Server → RequestVoteArgs → Server × RequestVoteReply
unfolding log_ok
handle_request_vote s args =
    if ltb args.term s.current_term
    then (s, record { term = s.current_term; vote_granted = false })
    else let seen = observe_term s args.term in
      if grants seen args
      then (grant seen args.candidate_id, record { term = seen.current_term; vote_granted = true })
      else (seen, record { term = seen.current_term; vote_granted = false })

-- `raft_handle_request_vote_reply`: whether the vote counts, and the server
unfoldable pub handle_request_vote_reply : Server → RequestVoteReply → Bool × Server
handle_request_vote_reply s reply =
    if ltb s.current_term reply.term
    then (false, step_down s reply.term)
    else (if not reply.vote_granted then (false, s) else (true, s))

-- `raft_become_leader`
unfoldable pub become_leader : Server → Server
become_leader s = record s {
  state = leader;
  next_index = replicate max_nodes (length s.log + 1);
  match_index = replicate max_nodes 0;
}

-- `raft_has_election_majority`
unfoldable pub has_election_majority : ℕ → ℕ → Bool
has_election_majority votes servers = ltb (servers / 2) votes

-- `raft_verify_election_safety`
unfoldable pub verify_election_safety : List ℕ → ℕ → ℕ → Bool
verify_election_safety voted_for n term = true
