-- ===== src/Api/Objects.antt =====
-- The objects of pkg/apis/virt/v1alpha1/types.go with their status. Of metav1.ObjectMeta the fields
-- that the program reads; a time is a number of seconds.
use virtink.Prelude.{ℕ, Bool, true, ◌==◌, String, Option, none, some, List}
use virtink.Prelude.Int.{ℤ}
use virtink.Api.External.{Kube}
use virtink.Api.Enums.{
  VirtualMachinePhase, VirtualMachinePowerAction, VirtualMachineMigrationPhase, VolumePhase,
  ConditionStatus,
}
use virtink.Api.Spec.{VirtualMachineSpec}

-- metav1.OwnerReference
pub record OwnerReference : Type 0 where
  pub api_version : String
  pub kind : String
  pub name : String
  pub uid : String

pub record ObjectMeta : Type 0 where
  pub name : String
  pub namespace : String
  pub uid : String
  pub labels : Option (List (String × String))
  pub annotations : Option (List (String × String))
  pub creation_timestamp : ℕ
  pub deletion_timestamp : Option ℕ
  pub generation : ℤ  -- int64
  pub finalizers : List String
  -- the owner that metav1.GetControllerOf gives
  pub controller : Option OwnerReference

-- metav1.Condition, less its transition time
pub record Condition : Type 0 where
  pub type_name : String
  pub status : ConditionStatus
  pub reason : String
  pub message : String

pub record VirtualMachineStatusMigration : Type 0 where
  pub uid : String
  pub phase : VirtualMachineMigrationPhase
  pub target_node_name : String
  pub target_node_ip : String
  pub target_node_port : ℤ
  pub target_vm_pod_name : String
  pub target_vm_pod_uid : String
  pub target_volume_pod_uid : String

pub record HotplugVolumeStatus : Type 0 where
  pub volume_pod_name : String
  pub volume_pod_uid : String

pub record VolumeStatus : Type 0 where
  pub name : String
  pub phase : VolumePhase
  pub hotplug_volume : Option HotplugVolumeStatus

pub record VirtualMachineStatus : Type 0 where
  pub phase : VirtualMachinePhase
  pub vm_pod_name : String
  pub vm_pod_uid : String
  pub node_name : String
  pub power_action : VirtualMachinePowerAction
  pub migration : Option VirtualMachineStatusMigration
  pub conditions : List Condition
  pub volume_status : List VolumeStatus

pub record VirtualMachine (K : Kube) : Type 0 where
  pub meta : ObjectMeta
  pub spec : VirtualMachineSpec K
  pub status : VirtualMachineStatus

pub record VirtualMachineMigrationStatus : Type 0 where
  pub phase : VirtualMachineMigrationPhase
  pub source_node_name : String
  pub target_node_name : String

pub record VirtualMachineMigrationSpec : Type 0 where
  pub vm_name : String

pub record VirtualMachineMigration : Type 0 where
  pub meta : ObjectMeta
  pub spec : VirtualMachineMigrationSpec
  pub status : VirtualMachineMigrationStatus

-- `(*metav1.Time).IsZero`: a nil pointer is zero too.
abbrev pub time_is_zero : Option ℕ → Bool
time_is_zero none = true
time_is_zero (some t) = t == 0
