-- ===== src/Api/Enums.antt =====
-- The string enumerations of pkg/apis/virt/v1alpha1/types.go; `unset` is the empty string.
use virtink.Prelude.{ℕ, Bool, ◌==◌}

pub data RunPolicy : Type 0 where
  unset always rerun_on_failure once manual halted : RunPolicy

pub data VirtualMachinePhase : Type 0 where
  unset pending scheduling scheduled running succeeded failed unknown : VirtualMachinePhase

pub data VirtualMachinePowerAction : Type 0 where
  unset power_on power_off shutdown reset reboot pause resume : VirtualMachinePowerAction

pub data VirtualMachineMigrationPhase : Type 0 where
  unset pending scheduling scheduled target_ready running sent succeeded failed :
      VirtualMachineMigrationPhase

pub data VolumePhase : Type 0 where
  unset pending attached_to_node mounted_to_pod ready detaching : VolumePhase

-- metav1.ConditionStatus
pub data ConditionStatus : Type 0 where
  cond_true cond_false cond_unknown : ConditionStatus

abbrev phase_code : VirtualMachinePhase → ℕ
phase_code VirtualMachinePhase.unset = 0
phase_code VirtualMachinePhase.pending = 1
phase_code VirtualMachinePhase.scheduling = 2
phase_code VirtualMachinePhase.scheduled = 3
phase_code VirtualMachinePhase.running = 4
phase_code VirtualMachinePhase.succeeded = 5
phase_code VirtualMachinePhase.failed = 6
phase_code VirtualMachinePhase.unknown = 7

abbrev pub phase_eq : VirtualMachinePhase → VirtualMachinePhase → Bool
phase_eq a b = phase_code a == phase_code b

abbrev migration_phase_code : VirtualMachineMigrationPhase → ℕ
migration_phase_code VirtualMachineMigrationPhase.unset = 0
migration_phase_code VirtualMachineMigrationPhase.pending = 1
migration_phase_code VirtualMachineMigrationPhase.scheduling = 2
migration_phase_code VirtualMachineMigrationPhase.scheduled = 3
migration_phase_code VirtualMachineMigrationPhase.target_ready = 4
migration_phase_code VirtualMachineMigrationPhase.running = 5
migration_phase_code VirtualMachineMigrationPhase.sent = 6
migration_phase_code VirtualMachineMigrationPhase.succeeded = 7
migration_phase_code VirtualMachineMigrationPhase.failed = 8

abbrev pub migration_phase_eq : VirtualMachineMigrationPhase → VirtualMachineMigrationPhase → Bool
migration_phase_eq a b = migration_phase_code a == migration_phase_code b

abbrev pub is_cond_true : ConditionStatus → Bool
is_cond_true ConditionStatus.cond_true = Bool.true
is_cond_true ConditionStatus.cond_false = Bool.false
is_cond_true ConditionStatus.cond_unknown = Bool.false
