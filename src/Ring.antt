-- ===== src/Ring.antt =====
-- mini-self-stabilization-dijkstra/src/dijkstra_ring.c: Dijkstra's token rings.
pub mod Config
pub mod Privilege
pub mod Step
pub mod Sync
pub mod Run
pub mod Tokens
pub mod Valid
pub mod Count
pub mod Guards
pub mod Closure
pub mod Convergence
pub mod FourState
pub mod Checks
pub mod Access
mod Examples
pub mod SyncRound
