-- ===== src/Webhook.antt =====
-- The admission webhooks of virtual machines, pkg/controller/vm_webhook.go.
pub mod Names
pub mod Cidr
pub mod Exclusive
pub mod Interface
pub mod Volume
pub mod VolumeValid
pub mod Network
pub mod Instance
pub mod InstanceValid
pub mod Resources
pub mod Spec
pub mod Update
pub mod UpdateValid
pub mod Mutate
pub mod MutateValid
