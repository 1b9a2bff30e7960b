-- ===== src/Graph.antt =====
-- mini-coloring-mis-lower-bounds: graphs, their builders, and the tests on them.
pub mod Types
pub mod Simple
pub mod Build
pub mod Built
pub mod Ports
pub mod PortTrip
pub mod Samples
mod Examples
