-- ===== src/Routing.antt =====
-- dv: the distance-vector routing daemon.
pub mod Names
pub mod Rib
pub mod Update
pub mod Fib
pub mod Sync
mod Tests
pub mod Prefixes
