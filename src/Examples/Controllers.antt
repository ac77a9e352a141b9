-- ===== src/Examples/Controllers.antt =====
-- A cluster with one pod of the machine, and runs of the machine's controller in it.
use virtink.Prelude.{
  ◌≡◌, ◌↔◌, ◌⊎◌, inl, refl, subst, arith, str_eq_iff, false, str_eq, none, some, List, [], ◌∷◌, inr,
  true, if◌then◌else◌,
}
use virtink.Prelude.Int.{pos}
use virtink.Api.{
  ObjectMeta, VirtualMachine, VirtualMachinePhase, VirtualMachineMigrationPhase, cond_true, Pod,
}
use virtink.Client.{found, not_found}
use virtink.Machine.Monad.{Cluster, State, final, ◌>>=◌, current, call, pure, put, deleted}
use virtink.Machine.Makes.{Adds}
use virtink.Machine.Ensures.{Holds}
use virtink.Machine.Cleanup.{gc_vm_pods}
use virtink.Machine.Conditions.{calculate_migratable}
use virtink.Machine.Migratable.{IsMovable, calculate_migratable_iff}
use virtink.Machine.Spares.{Spares, IsNoUpdate, gc_vm_pods-Spares, release-IsNoUpdate}
use virtink.Machine.Request.{handle_request}
use virtink.Machine.Sent.{SendsMove, handle_request-SendsMove}
use virtink.Machine.Build.Draft.{Builder}
use virtink.Machine.Build.Assembly.{first_pod, build_vm_pod}
use virtink.Machine.Build.Closed.{IsClosed}
use virtink.Machine.Build.ClosedPod.{build_vm_pod-IsClosed}
use virtink.Machine.Reconcile.Scheduling.{set_phase, name_pod}
use virtink.Machine.Reconcile.Ended.{reconcile, release, protection, set_finalizers}
use virtink.Machine.Reconcile.Lifecycle.{Lifecycle, IsIdle}
use virtink.Machine.Reconcile.Refinement.{UpdateKeepsStatus}
use virtink.Machine.Reconcile.Theorems.{reconcile-Lifecycle, reconcile-IsExclusive}
use virtink.Machine.Reconcile.MigrationMoves.{MigrationMove, reconcile-MigrationMove}
use virtink.Machine.Reconcile.Placing.{phase_in}
use virtink.Machine.VolumeStatus.{update_hotplug_volume_status}
use virtink.Machine.Plugged.{Settled, update_hotplug_volume_status-Settled}
use virtink.Migration.Exclusion.{IsExclusive}
use virtink.Machine.Hotplug.{is_controlled_by}
use virtink.Machine.VolumePods.{handle_hotplug_volumes}
use virtink.Machine.Owned.{IsReliable, Owned, handle_hotplug_volumes-Owned}
use virtink.Machine.Reconcile.Progress.{reconcile-scheduling}
use virtink.Examples.Data.{kube}
use virtink.Examples.Machines.{machine, plugged}
use virtink.Examples.Migrations.{first_world, first_world-IsExclusive}

abbrev builder : Builder kube
builder = record {
  image = "prerunner";
  encode = λ s. s;
  marshal_vm = λ vm. some "{}";
  marshal_networks = λ ns. some "[]";
  network_status_annotation = "k8s.v1.cni.cncf.io/network-status";
}

abbrev machine_pod : Pod kube
machine_pod = name_pod "vm-pod" machine.meta.namespace (first_pod builder machine)

-- A pod of the machine, and one that its status does not name.
abbrev two_pods : List (Pod kube)
two_pods = machine_pod ∷ name_pod "old-pod" machine.meta.namespace machine_pod ∷ []

abbrev cluster : Cluster kube
cluster = record {
  pod = λ calls namespace name. if str_eq name "vm-pod" then found machine_pod else not_found;
  vm_pods = λ calls uid. some two_pods;
  pods = λ calls namespace. some [];
  create = λ calls p. none;
  delete = λ calls p. deleted;
  update = λ calls vm. some vm;
  claim = λ calls namespace name. not_found;
  is_populated = λ calls p. some true;
  network = λ calls namespace name. not_found;
  name = λ calls base. "vm-pod";
  set_reference = λ owner object. some object;
  find_condition = λ cs name. none;
  set_condition = λ cs x. x ∷ cs;
  newest_first = λ ps. ps;
  any_order = λ ss. ss;
}

cluster-UpdateKeepsStatus : UpdateKeepsStatus cluster
cluster-UpdateKeepsStatus calls vm vm' e = cc

abbrev protected : VirtualMachine kube
protected = set_finalizers (protection ∷ []) machine

abbrev at : VirtualMachine kube → State kube
at vm = record { vm = vm; calls = [] }

abbrev pending_state : State kube
pending_state = at (set_phase VirtualMachinePhase.pending protected)

-- A pending machine gets the name of its pod.
reconcile-Lifecycle_example : Lifecycle VirtualMachinePhase.pending VirtualMachinePhase.scheduling
unfolding reconcile ◌>>=◌ current call pure put
reconcile-Lifecycle_example =
    reconcile-Lifecycle cluster builder cluster-UpdateKeepsStatus pending_state

-- The pod of the running machine is not one that the machine controls: it fails.
handle_request-SendsMove_example :
    SendsMove protected (handle_request cluster builder (λ vm. inr vm) (found protected))
handle_request-SendsMove_example =
    handle_request-SendsMove cluster builder cluster-UpdateKeepsStatus (λ vm. inr vm) protected

reconcile-IsExclusive_example :
    let vm' = (final (reconcile cluster builder (at first_world.vm))).vm in
    IsExclusive (record first_world { vm = vm' })
    ⊎ (IsIdle first_world.vm.status.phase × (vm'.status.migration ≡ none))
reconcile-IsExclusive_example =
    reconcile-IsExclusive cluster builder cluster-UpdateKeepsStatus [] first_world
      first_world-IsExclusive

gc_vm_pods-Spares_example :
    Adds (Spares protected) [] (final (gc_vm_pods cluster protected (at protected))).calls
gc_vm_pods-Spares_example = gc_vm_pods-Spares cluster protected (at protected)

-- Two pods are left, and are deleted: the machine waits.
release-IsNoUpdate_example : Adds IsNoUpdate [] (final (release cluster (at protected))).calls
release-IsNoUpdate_example = release-IsNoUpdate cluster (at protected) (λ e. cc)

build_vm_pod-IsClosed_example : Holds IsClosed (build_vm_pod cluster builder (at machine))
build_vm_pod-IsClosed_example = build_vm_pod-IsClosed cluster builder (at machine)

calculate_migratable_iff_example :
    ((calculate_migratable machine.spec).status ≡ cond_true) ↔ IsMovable machine.spec
calculate_migratable_iff_example = calculate_migratable_iff machine.spec

-- A running machine with a pod of its own, and a migration that asks for a target.
abbrev own_pod : Pod kube
own_pod = record machine_pod {
  meta = record (machine_pod.meta) {
    controller = some (record {
      api_version = "";
      kind = "VirtualMachine";
      name = machine.meta.name;
      uid = machine.meta.uid;
    });
  };
}

abbrev own_cluster : Cluster kube
own_cluster = record cluster { pod = λ calls namespace name. found own_pod }

own_cluster-UpdateKeepsStatus : UpdateKeepsStatus own_cluster
own_cluster-UpdateKeepsStatus calls vm vm' e = cc

abbrev requesting : VirtualMachine kube
requesting = record protected {
  status = record (protected.status) {
    phase = VirtualMachinePhase.running;
    migration = some (record {
      uid = "m";
      phase = VirtualMachineMigrationPhase.pending;
      target_node_name = "";
      target_node_ip = "";
      target_node_port = pos 0;
      target_vm_pod_name = "";
      target_vm_pod_uid = "";
      target_volume_pod_uid = "";
    });
  };
}

requesting-not_idle : ¬ (IsIdle requesting.status.phase)
requesting-not_idle h = elim h [ ]

reconcile-MigrationMove_example :
    MigrationMove
      (phase_in requesting.status.migration)
      (phase_in (final (reconcile own_cluster builder (at requesting))).vm.status.migration)
reconcile-MigrationMove_example =
    reconcile-MigrationMove own_cluster builder own_cluster-UpdateKeepsStatus (at requesting)
      requesting-not_idle

-- The volumes of the machine wait for a pod.
update_hotplug_volume_status-Settled_example :
    Settled plugged machine_pod (update_hotplug_volume_status cluster machine_pod (at plugged))
update_hotplug_volume_status-Settled_example =
    update_hotplug_volume_status-Settled cluster machine_pod (at plugged)

-- References that name the owner.
abbrev referring : Cluster kube
referring = record own_cluster {
  set_reference = λ owner object. some (record object {
    controller = some (record { api_version = ""; kind = ""; name = owner.name; uid = owner.uid });
  });
}

owned_by_self : (owner : ObjectMeta) → str_eq owner.uid owner.uid ≡ true
owned_by_self owner = ground (arith, str_eq_iff owner.uid owner.uid)

referring-IsReliable : IsReliable referring
unfolding is_controlled_by
referring-IsReliable = record {
  sorts = λ owner ps h. h;
  refers = λ owner object m e.
      subst (λ n. is_controlled_by n owner ≡ true) (some_injective e) (owned_by_self owner);
}
  where
    some_injective : {m n : ObjectMeta} → some m ≡ some n → m ≡ n
    some_injective e = cc

handle_hotplug_volumes-Owned_example :
    Adds
      (Owned own_pod)
      []
      (final
        (handle_hotplug_volumes referring "prerunner" plugged own_pod false (at plugged))).calls
handle_hotplug_volumes-Owned_example =
    handle_hotplug_volumes-Owned referring own_pod "prerunner" referring-IsReliable plugged false
      (at plugged)

-- A machine that failed, without pods.
abbrev failed_machine : VirtualMachine kube
failed_machine = set_phase VirtualMachinePhase.failed protected

abbrev empty_cluster : Cluster kube
empty_cluster = record cluster { vm_pods = λ calls uid. some [] }

reconcile-scheduling_example :
    (final (
      reconcile empty_cluster builder (record {
        vm = (final (reconcile empty_cluster builder (at failed_machine))).vm;
        calls = [];
      }))).vm.status.phase
    ≡ VirtualMachinePhase.scheduling
reconcile-scheduling_example =
    reconcile-scheduling empty_cluster builder (at failed_machine) [] IsIdle.failed refl refl refl
      (inl refl)
