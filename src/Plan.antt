-- ===== src/Plan.antt =====
-- internal/gnmic/plan.go: the plan of a cluster, built from its pipelines.
pub mod Ports
pub mod Inverse
pub mod Probe
pub mod PortMap
pub mod Assigned
pub mod Current
pub mod Target
pub mod Outcome
pub mod Missing
pub mod Data
pub mod Relations
pub mod Related
pub mod Builder
pub mod Build
pub mod Phases
pub mod Sound
pub mod Contents
pub mod Distributed
pub mod Succeeds
pub mod Returns
pub mod Listen
pub mod Secured
pub mod Parts
pub mod Dns
pub mod Domain
mod Tests
mod PartTests
pub mod Tls
pub mod Subscription
pub mod Any
pub mod Normal
pub mod Component
