-- ===== src/Migration.antt =====
-- Live migration as the control plane sees it: the controller of VirtualMachineMigration objects and
-- what holds of many migrations that share a virtual machine.
pub mod Controller
pub mod Ownership
pub mod Exclusion
pub mod Versions
pub mod Requests
pub mod Interleaved
pub mod Phases
pub mod Webhook
