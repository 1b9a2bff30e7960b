-- ===== src/Mis.antt =====
-- mini-coloring-mis-lower-bounds: maximal independent sets, sequential and by Luby's rounds.
pub mod Types
pub mod Greedy
pub mod Check
pub mod Dominators
pub mod Sequential
pub mod Classes
pub mod Luby
pub mod Round
pub mod Progress
pub mod Randomized
pub mod Maximum
pub mod Largest
pub mod RingSet
mod Examples
