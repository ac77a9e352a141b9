-- ===== src/Machine/Reconcile/Running.antt =====
-- The phase Running in `reconcile` of pkg/controller/vm_controller.go, with the part of a migration that
-- this controller has: the pod on the target node.
use virtink.Prelude.{
  Bool, true, false, ◌&&◌, String, str_eq, Option, none, some, is_some, List, [], ◌∷◌, is_empty,
  if◌then◌else◌,
}
use virtink.Api.{
  Kube, VirtualMachine, VirtualMachinePhase, phase_eq, VirtualMachineStatusMigration,
  VirtualMachineMigrationPhase, Pod, PodPhase, pod_phase_eq,
}
use virtink.Machine.Monad.{
  Cluster, M, Outcome, returned, raised, ◌>>=◌, ◌>>◌, pure, current, put, when_do, requeue_later,
  fails_with, panics,
}
use virtink.Machine.Hotplug.{get_hotplug_volumes, get_hotplug_volume_pods}
use virtink.Machine.VolumePods.{handle_hotplug_volumes}
use virtink.Machine.VolumeStatus.{update_hotplug_volume_status, set_volume_status}
use virtink.Machine.Conditions.{reconcile_vm_conditions}
use virtink.Machine.Build.Draft.{Builder}
use virtink.Machine.Build.Assembly.{build_target_vm_pod}
use virtink.Machine.Reconcile.Scheduling.{
  set_phase, get_vm_pod, generate_pod_name, create_named, fail_machine,
}

-- The phase that follows from the pod. A machine that migrates away stays in its phase when its pod
-- ends.
abbrev pub running_phase : Bool → PodPhase → VirtualMachinePhase
running_phase migrating PodPhase.succeeded =
    if migrating then VirtualMachinePhase.running else VirtualMachinePhase.succeeded
running_phase migrating PodPhase.failed = VirtualMachinePhase.failed
running_phase migrating PodPhase.unknown = VirtualMachinePhase.unknown
running_phase migrating PodPhase.unset = VirtualMachinePhase.running
running_phase migrating PodPhase.pending = VirtualMachinePhase.running
running_phase migrating PodPhase.running = VirtualMachinePhase.running

abbrev pub has_ended : PodPhase → Bool
has_ended PodPhase.succeeded = true
has_ended PodPhase.failed = true
has_ended PodPhase.unknown = true
has_ended PodPhase.unset = false
has_ended PodPhase.pending = false
has_ended PodPhase.running = false

abbrev pub map_slot :
    (VirtualMachineStatusMigration → VirtualMachineStatusMigration)
    → Option VirtualMachineStatusMigration
    → Option VirtualMachineStatusMigration
map_slot f none = none
map_slot f (some g) = some (f g)

module _ {K : Kube} where
  abbrev pub on_migration :
      (VirtualMachineStatusMigration → VirtualMachineStatusMigration)
      → VirtualMachine K
      → VirtualMachine K
  on_migration f vm = record vm {
    status = record (vm.status) { migration = map_slot f vm.status.migration };
  }

  abbrev pub run_phase : Pod K → VirtualMachine K → VirtualMachine K
  run_phase p vm = set_phase (running_phase (is_some vm.status.migration) p.status.phase) vm

  abbrev pub set_conditions : Cluster K → Pod K → VirtualMachine K → VirtualMachine K
  set_conditions c p vm = record vm {
    status = record (vm.status) {
      conditions = reconcile_vm_conditions c vm.spec p vm.status.conditions;
    };
  }

  unfoldable pub update_migration :
      (VirtualMachineStatusMigration → VirtualMachineStatusMigration) → M K (Unit {0})
  update_migration f = do vm ← current; put (on_migration f vm)

abbrev pub set_migration_phase :
    VirtualMachineMigrationPhase → VirtualMachineStatusMigration → VirtualMachineStatusMigration
set_migration_phase p g = record g { phase = p }

abbrev pub set_target_name : String → VirtualMachineStatusMigration → VirtualMachineStatusMigration
set_target_name name g = record g {
  target_vm_pod_name = name;
  phase = VirtualMachineMigrationPhase.scheduling;
}

abbrev pub set_target :
    String → String → VirtualMachineStatusMigration → VirtualMachineStatusMigration
set_target uid node g = record g { target_vm_pod_uid = uid; target_node_name = node }

abbrev pub set_volume_pod : String → VirtualMachineStatusMigration → VirtualMachineStatusMigration
set_volume_pod uid g = record g { target_volume_pod_uid = uid }

-- An error that is wrapped as text: that a retry was asked for is lost.
abbrev pub as_text {ℓ} : {K : Kube} {A : Type ℓ} → Outcome K A → Outcome K A
as_text (returned a s) = returned a s
as_text (raised (requeue_later n) s) = raised (fails_with "build target VM Pod") s
as_text (raised (fails_with e) s) = raised (fails_with e) s
as_text (raised panics s) = raised panics s

module _ {K : Kube} (c : Cluster K) (b : Builder K) where
  unfoldable pub build_as_text : M K (Pod K)
  unfolding build_target_vm_pod
  build_as_text s = as_text (build_target_vm_pod c b s)

  unfoldable pub create_target_pod : String → M K (Unit {0})
  unfolding build_as_text create_named
  create_target_pod name = do p ← build_as_text; create_named c b name p

  -- Are the hotplug volumes attached to the target node? The newest volume pod says so.
  unfoldable pub volume_pods_ready : List (Pod K) → M K Bool
  unfolding update_migration
  volume_pods_ready [] = pure false
  volume_pods_ready (p ∷ ps) = do
    update_migration (set_volume_pod p.meta.uid)
    when_do (has_ended p.status.phase)
        (update_migration (set_migration_phase VirtualMachineMigrationPhase.failed))
    pure (pod_phase_eq p.status.phase PodPhase.running)

  -- The statuses of the volumes are cleared in a copy, so that the target's volume pod mounts them all.
  unfoldable pub attach_on_target : Pod K → M K Bool
  unfolding handle_hotplug_volumes get_hotplug_volume_pods volume_pods_ready
  attach_on_target p = do
    vm ← current
    handle_hotplug_volumes c b.image (set_volume_status vm []) p true
    pods ← get_hotplug_volume_pods c p
    volume_pods_ready pods

  unfoldable pub fail_migration : M K Bool
  unfolding update_migration
  fail_migration = do
    update_migration (set_migration_phase VirtualMachineMigrationPhase.failed)
    pure false

  unfoldable pub volumes_on_target : Pod K → M K Bool
  unfolding attach_on_target get_hotplug_volumes fail_migration
  volumes_on_target p = do
    vm ← current
    if has_ended p.status.phase
        then fail_migration
        else if is_empty (get_hotplug_volumes vm p)
        then pure true
        else if str_eq p.spec.node_name ""
        then pure false
        else attach_on_target p

  unfoldable pub follow_target : Pod K → M K (Unit {0})
  unfolding volumes_on_target update_migration
  follow_target p = do
    update_migration (set_target p.meta.uid p.spec.node_name)
    attached ← volumes_on_target p
    when_do (pod_phase_eq p.status.phase PodPhase.running && attached)
        (update_migration (set_migration_phase VirtualMachineMigrationPhase.scheduled))

  unfoldable pub target_with : String → Option (Pod K) → M K (Unit {0})
  unfolding create_target_pod follow_target
  target_with name none = create_target_pod name
  target_with name (some p) = follow_target p

  unfoldable pub name_target : M K (Unit {0})
  unfolding generate_pod_name update_migration
  name_target = do name ← generate_pod_name c; update_migration (set_target_name name)

  unfoldable pub schedule_target : String → M K (Unit {0})
  unfolding get_vm_pod target_with
  schedule_target name = do p ← get_vm_pod c name; target_with name p

  unfoldable pub migration_at : String → VirtualMachineMigrationPhase → M K (Unit {0})
  unfolding name_target schedule_target
  migration_at name VirtualMachineMigrationPhase.unset = name_target
  migration_at name VirtualMachineMigrationPhase.pending = name_target
  migration_at name VirtualMachineMigrationPhase.scheduling = schedule_target name
  migration_at name _ = pure tt

  unfoldable pub reconcile_migration : VirtualMachineStatusMigration → M K (Unit {0})
  unfolding migration_at
  reconcile_migration g = migration_at g.target_vm_pod_name g.phase

  abbrev pub unless_migrating : Pod K → Option VirtualMachineStatusMigration → M K (Unit {0})
  unless_migrating p (some g) = reconcile_migration g
  unless_migrating p none = do
    vm ← current
    handle_hotplug_volumes c b.image vm p false
    update_hotplug_volume_status c p

  unfoldable pub stay_running : Pod K → M K (Unit {0})
  unfolding reconcile_migration handle_hotplug_volumes update_hotplug_volume_status
      reconcile_vm_conditions
  stay_running p = do
    old ← current
    put (set_conditions c p old)
    unless_migrating p old.status.migration

  unfoldable pub running_with : Option (Pod K) → M K (Unit {0})
  unfolding stay_running fail_machine
  running_with none = fail_machine c b
  running_with (some p) = do
    old ← current
    put (run_phase p old)
    when_do (phase_eq (run_phase p old).status.phase VirtualMachinePhase.running) (stay_running p)

  unfoldable pub reconcile_running : M K (Unit {0})
  unfolding get_vm_pod running_with
  reconcile_running = do vm ← current; p ← get_vm_pod c vm.status.vm_pod_name; running_with p
