-- ===== src/Raft.antt =====
-- mini-paxos-raft-formal/src/raft_leader_election.c, src/raft_log_replication.c and a part of
-- src/raft_simulator.c: Raft.
pub mod Types
pub mod Election
pub mod Replication
pub mod Keeps
pub mod System
mod Ballots
pub mod Safety
pub mod Log
pub mod Follower
pub mod FullLog
pub mod Commit
pub mod Unsafe
pub mod Stale
pub mod Advances
pub mod LogBounds
pub mod Bounds
pub mod Replicate
pub mod Tick
pub mod TickVotes
mod Examples
