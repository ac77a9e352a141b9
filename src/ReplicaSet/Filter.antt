-- ===== src/ReplicaSet/Filter.antt =====
-- Which machines of a replica set are active, ready, available, finished or unknown:
-- pkg/controller/vmrs_controller.go, its helper functions.
use virtink.Prelude.{◌≡◌, Bool, not, ◌&&◌, ◌||◌, String, List, select, arith}
use virtink.Api.{Kube, VirtualMachine, VirtualMachinePhase, Condition, phase_eq, time_is_zero}

-- `true_condition` is meta.IsStatusConditionTrue.
module _ {K : Kube} where
  abbrev pub is_vm_final : VirtualMachine K → Bool
  is_vm_final vm =
      phase_eq vm.status.phase VirtualMachinePhase.failed
      || phase_eq vm.status.phase VirtualMachinePhase.succeeded

  abbrev pub is_vm_active : VirtualMachine K → Bool
  is_vm_active vm = not (is_vm_final vm) && time_is_zero vm.meta.deletion_timestamp

  unfoldable pub is_vm_ready : (List Condition → String → Bool) → VirtualMachine K → Bool
  is_vm_ready true_condition vm =
      not (phase_eq vm.status.phase VirtualMachinePhase.unset)
      && is_vm_active vm
      && phase_eq vm.status.phase VirtualMachinePhase.running
      && true_condition vm.status.conditions "Ready"

  unfoldable pub is_vm_available : (List Condition → String → Bool) → VirtualMachine K → Bool
  unfolding is_vm_ready
  is_vm_available true_condition vm =
      is_vm_ready true_condition vm && not (phase_eq vm.status.phase VirtualMachinePhase.unknown)

  abbrev pub is_vm_finished : VirtualMachine K → Bool
  is_vm_finished vm =
      phase_eq vm.status.phase VirtualMachinePhase.failed
      || phase_eq vm.status.phase VirtualMachinePhase.succeeded

  abbrev pub is_vm_unknown : VirtualMachine K → Bool
  is_vm_unknown vm = phase_eq vm.status.phase VirtualMachinePhase.unknown

  abbrev pub filter_finished_vms : List (VirtualMachine K) → List (VirtualMachine K)
  filter_finished_vms vms = select is_vm_finished vms

  abbrev pub filter_unknown_vms : List (VirtualMachine K) → List (VirtualMachine K)
  filter_unknown_vms vms = select is_vm_unknown vms

  abbrev pub filter_active_vms : List (VirtualMachine K) → List (VirtualMachine K)
  filter_active_vms vms = select is_vm_active vms

  -- A machine is available exactly when it is ready.
  pub is_vm_available-ready :
      (true_condition : List Condition → String → Bool) (vm : VirtualMachine K)
      → is_vm_available true_condition vm ≡ is_vm_ready true_condition vm
  unfolding is_vm_available
  is_vm_available-ready true_condition vm = ground arith
