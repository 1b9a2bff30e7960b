-- ===== src/Coloring.antt =====
-- mini-coloring-mis-lower-bounds: colorings, sequential and distributed.
pub mod Types
pub mod Greedy
pub mod Smallest
pub mod Proper
pub mod Check
pub mod Sequential
pub mod Distributed
pub mod OneRound
pub mod Reduce
pub mod Cleared
pub mod Removal
pub mod Reduced
mod Examples
