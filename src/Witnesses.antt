-- ===== src/Witnesses.antt =====
-- Concrete runs of the programs: each applies a theorem of the library at an input where the
-- theorem's hypotheses hold.
mod Reader
pub mod Paths
pub mod Routing
pub mod Chains
pub mod Devices
pub mod Publishing
mod Settings
mod Commands
mod Streams
mod Services
