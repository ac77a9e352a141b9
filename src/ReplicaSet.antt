-- ===== src/ReplicaSet.antt =====
-- The replica sets of virtual machines: pkg/controller/vmrs_controller.go and vmrs_webhook.go.
pub mod Objects
pub mod Filter
pub mod Conditions
pub mod Counting
pub mod Status
pub mod Scale
pub mod Deletion
pub mod Convergence
pub mod Webhook
pub mod Controller
pub mod Handlers
pub mod Request
