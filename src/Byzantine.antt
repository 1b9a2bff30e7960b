-- ===== src/Byzantine.antt =====
-- mini-byzantine-agreement-lower-bound: the phase king and Ben-Or protocols.
pub mod King
pub mod KingRun
pub mod Agreed
pub mod BenOr
pub mod BenOrRun
pub mod BenOrAgreed
pub mod BenOrCounts
pub mod BenOrRound
pub mod BenOrValid
pub mod Chains
pub mod Signed
mod Examples
