-- ===== src/Paxos.antt =====
-- mini-paxos-raft-formal/src/paxos_basic.c: Basic Paxos.
pub mod Types
pub mod Roles
pub mod System
pub mod Instance
pub mod InstanceRun
pub mod Messages
pub mod Agreement
mod Replay
pub mod Overwrite
mod Examples
pub mod Invariant
pub mod Selection
pub mod Voting
