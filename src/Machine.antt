-- ===== src/Machine.antt =====
-- The controller of virtual machines, pkg/controller/vm_controller.go, with pkg/volumeutil.
pub mod Monad
pub mod Reads
pub mod Keeps
pub mod Leads
pub mod Makes
pub mod Ensures
pub mod Claims
pub mod Hotplug
pub mod VolumePods
pub mod VolumeStatus
pub mod Conditions
pub mod Cleanup
pub mod Build
pub mod Reconcile
pub mod Request
pub mod Migratable
pub mod Spares
pub mod Plugged
pub mod Owned
pub mod Sent
