-- ===== src/Multipath.antt =====
-- mars/fw/fw/multipath.go: the MARS forwarding strategy.
pub mod Hops
pub mod Failure
pub mod State
pub mod Convergence
pub mod Discovery
pub mod Interest
pub mod Feedback
pub mod Events
mod Tests
