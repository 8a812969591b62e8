-- ===== src/Webhook.antt =====
-- internal/webhook/v1alpha1: the validators that admit or reject resources.
pub mod Errors
pub mod Cluster
pub mod Subscription
pub mod Pipeline
pub mod Profile
pub mod Target
pub mod NoErrors
pub mod Accepts
pub mod Usable
mod Tests
