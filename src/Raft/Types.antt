-- ===== src/Raft/Types.antt =====
-- mini-paxos-raft-formal/include/paxos_raft_types.h: a Raft server and its messages. The array of
-- a log and its length are one list, since no entry behind the length is read before it is written
-- again. The structs `persistent` and `volatile_` are fields of the server.
use mini_distributed_computi.Prelude.{ℕ, ◌-◌, Bool, true, false, List, get_or}
use mini_distributed_computi.Paxos.Types.{Value, no_value, max_nodes}

abbrev pub max_log_entries : ℕ
max_log_entries = 256

-- `raft_state_t`
pub data RaftState : Type 0 where
  follower candidate leader : RaftState

-- `raft_log_entry_t`
pub record LogEntry : Type 0 where
  pub term : ℕ
  pub command : Value

-- What a read behind the log would give; no theorem rests on it.
abbrev pub no_entry : LogEntry
no_entry = record { term = 0; command = no_value }

-- `raft_server_t`
pub record Server : Type 0 where
  pub node_id : ℕ
  pub state : RaftState
  pub current_term : ℕ
  pub voted_for : ℕ
  pub log : List LogEntry
  pub commit_index : ℕ
  pub last_applied : ℕ
  pub next_index : List ℕ
  pub match_index : List ℕ
  pub election_timeout_ms : ℕ
  pub election_elapsed_ms : ℕ
  pub heartbeat_timeout_ms : ℕ

-- `raft_request_vote_args_t`
pub record RequestVoteArgs : Type 0 where
  pub term : ℕ
  pub candidate_id : ℕ
  pub last_log_index : ℕ
  pub last_log_term : ℕ

-- `raft_request_vote_reply_t`
pub record RequestVoteReply : Type 0 where
  pub term : ℕ
  pub vote_granted : Bool

-- `raft_append_entries_args_t`
pub record AppendEntriesArgs : Type 0 where
  pub term : ℕ
  pub leader_id : ℕ
  pub prev_log_index : ℕ
  pub prev_log_term : ℕ
  pub entries : List LogEntry
  pub leader_commit : ℕ

-- `raft_append_entries_reply_t`
pub record AppendEntriesReply : Type 0 where
  pub term : ℕ
  pub success : Bool

-- `voted_for = MAX_NODES`
abbrev pub not_voted : ℕ
not_voted = max_nodes

-- What every handler does on a higher term.
abbrev pub step_down : Server → ℕ → Server
step_down s t = record s { current_term = t; state = follower; voted_for = not_voted }

abbrev pub is_leader : RaftState → Bool
is_leader leader = true
is_leader _ = false

-- `log[index - 1].term`, for an index from 1
abbrev pub term_at : List LogEntry → ℕ → ℕ
term_at log index = (get_or log (index - 1) no_entry).term
