-- ===== src/Placement.antt =====
-- internal/gnmic: which pod collects from which target.
pub mod Hash
pub mod Blrh
pub mod Load
pub mod Bound
pub mod Once
pub mod Complete
pub mod Stable
pub mod Choice
pub mod Distribute
pub mod Partition
mod Tests
