-- ===== src/Controller.antt =====
-- internal/controller: the reconcilers.
pub mod Source
pub mod Single
pub mod Stops
mod Tests
