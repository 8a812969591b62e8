-- ===== src/State.antt =====
-- internal/controller/targetstate_controller.go, by the modules that model its parts.
pub mod Status
pub mod Sync
pub mod Summary
pub mod Streams
pub mod Started
pub mod Restart
mod Tests
