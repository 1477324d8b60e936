-- ===== src/System.antt =====
-- The whole program as one machine: what its workers, handlers and operators do to the shared
-- state, in any order, and what holds in every state that they reach. A worker's run is one step,
-- so runs of two workers do not interleave.
pub mod Changes
pub mod Growth
pub mod Soundness
mod Switching
mod Ingesting
mod Analyzing
mod Trading
pub mod Machine
pub mod Safety
