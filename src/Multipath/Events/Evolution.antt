-- ===== src/Multipath/Events/Evolution.antt =====
-- What no packet takes back: a node that converged or became invalid stays so, its data faces are
-- final, and a face that is no longer valid never becomes valid again.
pub mod Stages
pub mod Interests
pub mod Replies
pub mod Runs
