-- ===== src/Quorum.antt =====
-- mini-paxos-raft-formal/src/quorum_system.c: quorums and their intersections.
pub mod System
pub mod Generate
pub mod Majorities
pub mod Intersection
pub mod Generated
mod Examples
