-- ===== src/Machine/Build.antt =====
-- The pod of a machine: `buildVMPod` and `buildTargetVMPod` of pkg/controller/vm_controller.go.
pub mod Draft
pub mod Volumes
pub mod Networks
pub mod Assembly
pub mod Kept
pub mod Closed
pub mod ClosedVolumes
pub mod ClosedParts
pub mod ClosedPod
