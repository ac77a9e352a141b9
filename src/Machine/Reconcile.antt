-- ===== src/Machine/Reconcile.antt =====
-- `VMReconciler.reconcile` of pkg/controller/vm_controller.go: one branch for each phase of the machine.
pub mod Scheduling
pub mod Running
pub mod Ended
pub mod Kept
pub mod Lifecycle
pub mod Refinement
pub mod Slot
pub mod Restart
pub mod Progress
pub mod Theorems
pub mod Placing
pub mod MigrationMoves
