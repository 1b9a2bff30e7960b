-- ===== src/Paxos/Invariant.antt =====
-- The invariant of `Paxos.System` when ACCEPT messages arrive in order, and that every step keeps it.
mod Defs
mod Propose
mod Promise
mod Vote
pub use Defs.*
pub use Propose.*
pub use Promise.*
pub use Vote.*
