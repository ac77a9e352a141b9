-- ===== src/Machine/Reconcile/Scheduling.antt =====
-- The phases Pending, Scheduling and Scheduled in `reconcile` of pkg/controller/vm_controller.go.
use virtink.Prelude.{
  Bool, true, false, not, ◌&&◌, ◌||◌, String, str_eq, Option, none, some, List, [], ◌∷◌,
  if◌then◌else◌,
}
use Prim.Native.String.{◌++◌ as str_append}
use virtink.Api.{
  Kube, VirtualMachine, VirtualMachinePhase, phase_eq, Volume, is_hotpluggable, VolumeStatus,
  VolumePhase, Pod, PodPhase,
}
use virtink.Client.{GetResult, found, not_found, failed}
use virtink.Machine.Monad.{
  Cluster, M, ◌>>=◌, ◌>>◌, pure, raise, current, put, call, when_do, get_pod, generate_name,
  fails_with,
}
use virtink.Machine.Hotplug.{is_controlled_by, last_status, create}
use virtink.Machine.VolumePods.{handle_hotplug_volumes, set_controller_reference}
use virtink.Machine.VolumeStatus.{update_hotplug_volume_status}
use virtink.Machine.Build.Draft.{Builder}
use virtink.Machine.Build.Assembly.{build_vm_pod}

abbrev is_attached : Option VolumeStatus → Bool
is_attached none = false
is_attached (some s) = elim s.phase [ VolumePhase.attached_to_node ↦ true | _ ↦ false ]

-- All hotplug volumes are attached to the node of the pod.
unfoldable pub all_attached : {K : Kube} → List (Volume K) → List VolumeStatus → Bool
all_attached [] ss = true
all_attached (v ∷ vs) ss =
    (not (is_hotpluggable v) || is_attached (last_status v.name ss)) && all_attached vs ss

-- The phase that follows from that of the pod.
abbrev pub scheduled_phase : Bool → VirtualMachinePhase → PodPhase → VirtualMachinePhase
scheduled_phase attached phase PodPhase.running =
    if phase_eq phase VirtualMachinePhase.scheduling && attached
    then VirtualMachinePhase.scheduled
    else phase
scheduled_phase attached phase PodPhase.succeeded = VirtualMachinePhase.succeeded
scheduled_phase attached phase PodPhase.failed = VirtualMachinePhase.failed
scheduled_phase attached phase PodPhase.unknown = VirtualMachinePhase.unknown
scheduled_phase attached phase PodPhase.unset = phase
scheduled_phase attached phase PodPhase.pending = phase

module _ {K : Kube} where
  abbrev pub set_phase : VirtualMachinePhase → VirtualMachine K → VirtualMachine K
  set_phase p vm = record vm { status = record (vm.status) { phase = p } }

  abbrev pub set_pod_name : String → VirtualMachine K → VirtualMachine K
  set_pod_name name vm = record vm { status = record (vm.status) { vm_pod_name = name } }

  abbrev pub set_node : Pod K → VirtualMachine K → VirtualMachine K
  set_node p vm = record vm {
    status = record (vm.status) { vm_pod_uid = p.meta.uid; node_name = p.spec.node_name };
  }

  abbrev pub follow_phase : Pod K → VirtualMachine K → VirtualMachine K
  follow_phase p vm =
      let attached = all_attached vm.spec.volumes vm.status.volume_status in
      set_phase (scheduled_phase attached vm.status.phase p.status.phase) vm

  -- The name and the namespace that a pod of the machine is created with.
  abbrev pub name_pod : String → String → Pod K → Pod K
  name_pod name namespace p = record p {
    meta = record (p.meta) { name = name; namespace = namespace };
  }

module _ {K : Kube} (c : Cluster K) where
  -- A pod that the machine does not control counts as not found.
  unfoldable pub found_pod : VirtualMachine K → GetResult (Pod K) → M K (Option (Pod K))
  unfolding is_controlled_by
  found_pod vm (found p) = pure (if is_controlled_by p.meta vm.meta then some p else none)
  found_pod vm not_found = pure none
  found_pod vm (failed e) = raise (fails_with e)

  unfoldable pub get_vm_pod : String → M K (Option (Pod K))
  unfolding found_pod
  get_vm_pod name = do
    vm ← current
    calls ← call (get_pod name)
    found_pod vm (c.pod calls vm.meta.namespace name)

  unfoldable pub generate_pod_name : M K String
  generate_pod_name = do
    vm ← current
    calls ← call (generate_name (str_append "vm-" (str_append vm.meta.name "-")))
    pure (c.name calls (str_append "vm-" (str_append vm.meta.name "-")))

  unfoldable pub reconcile_pending : M K (Unit {0})
  unfolding generate_pod_name
  reconcile_pending = do
    name ← generate_pod_name
    vm ← current
    put (set_phase VirtualMachinePhase.scheduling (set_pod_name name vm))

module _ {K : Kube} (c : Cluster K) (b : Builder K) where
  -- The name is the one that the pod was looked up with.
  unfoldable pub create_named : String → Pod K → M K (Unit {0})
  unfolding set_controller_reference create
  create_named name p = do
    vm ← current
    q ← set_controller_reference c b.image vm.meta (name_pod name vm.meta.namespace p)
    create c q

  unfoldable pub create_vm_pod : String → M K (Unit {0})
  unfolding build_vm_pod create_named
  create_vm_pod name = do p ← build_vm_pod c b; create_named name p

  unfoldable pub fail_machine : M K (Unit {0})
  fail_machine = do vm ← current; put (set_phase VirtualMachinePhase.failed vm)

  unfoldable pub missing_pod : VirtualMachine K → M K (Unit {0})
  unfolding create_vm_pod fail_machine
  missing_pod vm =
      if phase_eq vm.status.phase VirtualMachinePhase.scheduling
      then create_vm_pod vm.status.vm_pod_name
      else fail_machine

  unfoldable pub follow_pod : Pod K → M K (Unit {0})
  unfolding handle_hotplug_volumes all_attached update_hotplug_volume_status
  follow_pod p = do
    old ← current
    put (set_node p old)
    vm ← current
    when_do (not (str_eq p.spec.node_name "")) (handle_hotplug_volumes c b.image vm p true)
    now ← current
    put (follow_phase p now)
    update_hotplug_volume_status c p

  unfoldable pub scheduling_with : Option (Pod K) → M K (Unit {0})
  unfolding missing_pod follow_pod
  scheduling_with none = do vm ← current; missing_pod vm
  scheduling_with (some p) = follow_pod p

  unfoldable pub reconcile_scheduling : M K (Unit {0})
  unfolding get_vm_pod scheduling_with
  reconcile_scheduling = do vm ← current; p ← get_vm_pod c vm.status.vm_pod_name; scheduling_with p
