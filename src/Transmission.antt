-- ===== src/Transmission.antt =====
-- mars/fw/fw/multipath.go: rate-controlled data transmission of the MARS forwarding strategy.
pub mod Floats
pub mod Control
pub mod Budget
pub mod Queue
pub mod Drain
pub mod Assign
pub mod Forward
pub mod Runs
mod Tests
mod Scenarios
