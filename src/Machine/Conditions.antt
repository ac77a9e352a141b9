-- ===== src/Machine/Conditions.antt =====
-- The conditions of a machine: `reconcileVMConditions` and `calculateMigratableCondition` of
-- pkg/controller/vm_controller.go.
use virtink.Prelude.{
  Bool, true, false, ◌&&◌, ◌||◌, String, str_eq, none, some, is_some, List, [], ◌∷◌, if◌then◌else◌,
}
use virtink.Api.{
  Kube, VirtualMachineSpec, Volume, Network, Interface, Condition, ConditionStatus, FileSystem,
  cond_true, cond_false, Pod, PodCondition,
}
use virtink.Machine.Monad.{Cluster}

abbrev migratable : ConditionStatus → String → Condition
migratable status reason = record {
  type_name = "Migratable";
  status = status;
  reason = reason;
  message = "";
}

abbrev blocks_migration : Network → Interface → Bool
blocks_migration n i =
    str_eq i.name n.name
    && (is_some n.source.pod && is_some i.binding.bridge
        || is_some i.binding.sriov
        || is_some i.binding.vhost_user)

unfoldable pub any_blocks : Network → List Interface → Bool
any_blocks n [] = false
any_blocks n (i ∷ is) = blocks_migration n i || any_blocks n is

unfoldable pub any_network_blocks : List Network → List Interface → Bool
unfolding any_blocks
any_network_blocks [] is = false
any_network_blocks (n ∷ ns) is = any_blocks n is || any_network_blocks ns is

abbrev pub is_container_volume : {K : Kube} → Volume K → Bool
is_container_volume v = is_some v.source.container_rootfs || is_some v.source.container_disk

unfoldable pub any_container_volume : {K : Kube} → List (Volume K) → Bool
any_container_volume [] = false
any_container_volume (v ∷ vs) = is_container_volume v || any_container_volume vs

abbrev any_file_system : List FileSystem → Bool
any_file_system [] = false
any_file_system (f ∷ fs) = true

-- The messages are left out. All three checks of an interface give one reason.
unfoldable pub calculate_migratable : {K : Kube} → VirtualMachineSpec K → Condition
unfolding any_network_blocks any_container_volume
calculate_migratable s =
    if s.instance_spec.cpu.dedicated_cpu_placement
    then migratable cond_false "CPUNotMigratable"
    else if any_network_blocks s.networks s.instance_spec.interfaces
    then migratable cond_false "InterfaceNotMigratable"
    else if any_container_volume s.volumes
    then migratable cond_false "VolumeNotMigratable"
    else if any_file_system s.instance_spec.file_systems
    then migratable cond_false "FileSystemNotMigratable"
    else migratable cond_true "Migratable"

abbrev status_text : ConditionStatus → String
status_text ConditionStatus.cond_true = "True"
status_text ConditionStatus.cond_false = "False"
status_text ConditionStatus.cond_unknown = "Unknown"

abbrev ready_of : PodCondition → Condition
ready_of p = record {
  type_name = "Ready";
  status = p.status;
  reason = if str_eq p.reason "" then status_text p.status else p.reason;
  message = p.message;
}

module _ {K : Kube} (c : Cluster K) where
  unfoldable pub ready_conditions : List PodCondition → List Condition → List Condition
  ready_conditions [] cs = cs
  ready_conditions (p ∷ ps) cs =
      ready_conditions ps
        (if str_eq p.type_name "Ready" then c.set_condition cs (ready_of p) else cs)

  -- `reconcileVMConditions`; its error is that of `calculateMigratableCondition`, which gives none.
  unfoldable pub reconcile_vm_conditions :
      VirtualMachineSpec K → Pod K → List Condition → List Condition
  unfolding ready_conditions calculate_migratable
  reconcile_vm_conditions spec pod cs =
      let ready = ready_conditions pod.status.conditions cs in
      elim (c.find_condition ready "Migratable") [
        | some m ↦ ready
        | none ↦ c.set_condition ready (calculate_migratable spec)
      ]
