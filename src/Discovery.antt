-- ===== src/Discovery.antt =====
-- internal/controller/discovery: target discovery.
pub mod Types
pub mod Mapper
pub mod Processor
pub mod Run
pub mod Reliable
pub mod Effects
pub mod Converge
pub mod Buffer
pub mod Frames
pub mod Invariant
pub mod Send
pub mod Chunks
pub mod Delivery
pub mod Batches
pub mod Memory
pub mod Labels
pub mod Client
pub mod Registry
mod Tests
