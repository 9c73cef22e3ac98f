-- ===== src/Tables.antt =====
-- The tables of the forwarder (mars/fw/table).
pub mod Tree
pub mod Strategy
pub mod Refinement
mod Keys
mod Prune
mod Lookup
mod Runs
pub mod DeadNonces
mod Expiry
pub mod ContentStore
mod Eviction
mod Capacity
pub mod Pit
pub mod Routes
mod Tests
