-- ===== src/Machine/Reconcile/Kept.antt =====
-- What looking up, naming and creating a pod keep of the machine in memory, and what updating its statuses
-- keeps.
use virtink.Prelude.{
  ◌≡◌, refl, ap, ◌∙◌, String, str_eq, is_empty, Option, none, some, List, [], ◌∷◌, true, false,
}
use virtink.Api.{
  Kube, VirtualMachine, VirtualMachineStatusMigration, VirtualMachineMigrationPhase, Pod,
  VolumeStatus,
}
use virtink.Client.{GetResult, found, not_found, failed}
use virtink.Machine.Monad.{
  Cluster, Outcome, returned, raised, final, requeue_later, fails_with, panics,
}
use virtink.Machine.Reads.{Reads, reads, current-Reads, pure-Reads}
use virtink.Machine.Keeps.{Keeps, Reads-Keeps, bind-Keeps, then-Keeps, when_do-Keeps, if-Keeps}
use virtink.Machine.Leads.{change-Keeps, change_then-Keeps}
use virtink.Machine.Hotplug.{get_hotplug_volumes, create-Reads, get_hotplug_volume_pods-Reads}
use virtink.Machine.VolumePods.{set_controller_reference-Reads, handle_hotplug_volumes-Reads}
use virtink.Machine.VolumeStatus.{set_volume_status, update_hotplug_volume_status-Keeps}
use virtink.Machine.Build.Draft.{Builder, shared_vm}
use virtink.Machine.Build.Assembly.{build_target_vm_pod}
use virtink.Machine.Build.Kept.{build_vm_pod-Keeps, build_target_vm_pod-Keeps}
use virtink.Machine.Reconcile.Scheduling.{
  found_pod, get_vm_pod, generate_pod_name, create_named, create_vm_pod,
}
use virtink.Machine.Reconcile.Running.{
  build_as_text, as_text, create_target_pod, on_migration, update_migration, set_migration_phase,
  set_target_name, set_target, set_volume_pod, set_conditions, volume_pods_ready, attach_on_target,
  fail_migration, volumes_on_target, follow_target, target_with, name_target, schedule_target,
  migration_at, reconcile_migration, unless_migrating, stay_running,
}

module _ {K : Kube} (c : Cluster K) where
  found_pod-Reads : (vm : VirtualMachine K) (r : GetResult (Pod K)) → Reads (found_pod c vm r)
  unfolding found_pod
  found_pod-Reads vm (found p) = search reads
  found_pod-Reads vm not_found = search reads
  found_pod-Reads vm (failed e) = search reads

  pub get_vm_pod-Reads : (name : String) → Reads (get_vm_pod c name)
  unfolding get_vm_pod
  get_vm_pod-Reads name = search (reads, found_pod-Reads)

  pub generate_pod_name-Reads : Reads (generate_pod_name c)
  unfolding generate_pod_name
  generate_pod_name-Reads = search reads

  pub create_named-Reads :
      (b : Builder K) (name : String) (p : Pod K) → Reads (create_named c b name p)
  unfolding create_named
  create_named-Reads b name p =
      search (reads, set_controller_reference-Reads c b.image, create-Reads c)

module _ {ℓ} {K : Kube} {A : Type ℓ} where
  as_text-final : (o : Outcome K A) → final (as_text o) ≡ final o
  as_text-final (returned a s) = refl
  as_text-final (raised (requeue_later n) s) = refl
  as_text-final (raised (fails_with e) s) = refl
  as_text-final (raised panics s) = refl

-- A part of the machine that the pod shares no map with.
module _ {κ} {K : Kube} {X : Type κ} (c : Cluster K) (b : Builder K) (f : VirtualMachine K → X)
    (apart : (p : Pod K) (vm : VirtualMachine K) → f (shared_vm p vm) ≡ f vm) where
  pub create_vm_pod-Keeps : (name : String) → Keeps f (create_vm_pod c b name)
  unfolding create_vm_pod
  create_vm_pod-Keeps name =
      bind-Keeps f (build_vm_pod-Keeps c b f apart)
        (λ p. Reads-Keeps f (create_named-Reads c b name p))

  build_as_text-Keeps : Keeps f (build_as_text c b)
  unfolding build_as_text
  build_as_text-Keeps = record {
    run = λ s.
        ap (λ t. f (t.vm)) (as_text-final (build_target_vm_pod c b s))
        ∙ (build_target_vm_pod-Keeps c b f apart).run s;
  }

  pub create_target_pod-Keeps : (name : String) → Keeps f (create_target_pod c b name)
  unfolding create_target_pod
  create_target_pod-Keeps name =
      bind-Keeps f build_as_text-Keeps (λ p. Reads-Keeps f (create_named-Reads c b name p))

  -- A part that a migration keeps as well: it does not depend on the migration, except for its UID.
  module _
      (on_slot : (g : VirtualMachineStatusMigration → VirtualMachineStatusMigration)
        → ((m : VirtualMachineStatusMigration) → (g m).uid ≡ m.uid)
        → (vm : VirtualMachine K) → f (on_migration g vm) ≡ f vm) where
    update_migration-Keeps :
        (g : VirtualMachineStatusMigration → VirtualMachineStatusMigration)
        → ((m : VirtualMachineStatusMigration) → (g m).uid ≡ m.uid)
        → Keeps f (update_migration g)
    unfolding update_migration
    update_migration-Keeps g h = change-Keeps f (on_migration g) (on_slot g h)

    volume_pods_ready-Keeps : (ps : List (Pod K)) → Keeps f (volume_pods_ready c b ps)
    unfolding volume_pods_ready
    volume_pods_ready-Keeps [] = Reads-Keeps f (pure-Reads _)
    volume_pods_ready-Keeps (p ∷ ps) =
        then-Keeps f (update_migration-Keeps (set_volume_pod p.meta.uid) (λ m. refl)) (
          then-Keeps f
            (when_do-Keeps f _ (
              update_migration-Keeps (set_migration_phase VirtualMachineMigrationPhase.failed)
                (λ m. refl)))
            (Reads-Keeps f (pure-Reads _)))

    attach_on_target-Keeps : (p : Pod K) → Keeps f (attach_on_target c b p)
    unfolding attach_on_target
    attach_on_target-Keeps p = bind-Keeps f (Reads-Keeps f current-Reads) (λ vm.
        then-Keeps f
          (Reads-Keeps f (handle_hotplug_volumes-Reads c b.image (set_volume_status vm []) p true))
          (bind-Keeps f (Reads-Keeps f (get_hotplug_volume_pods-Reads c p))
            (λ ps. volume_pods_ready-Keeps ps)))

    fail_migration-Keeps : Keeps f (fail_migration c b)
    unfolding fail_migration
    fail_migration-Keeps =
        then-Keeps f
          (update_migration-Keeps (set_migration_phase VirtualMachineMigrationPhase.failed)
            (λ m. refl))
          (Reads-Keeps f (pure-Reads _))

    volumes_on_target-Keeps : (p : Pod K) → Keeps f (volumes_on_target c b p)
    unfolding volumes_on_target
    volumes_on_target-Keeps p = bind-Keeps f (Reads-Keeps f current-Reads) (λ vm.
        if-Keeps f _ fail_migration-Keeps (
          if-Keeps f (is_empty (get_hotplug_volumes vm p)) (Reads-Keeps f (pure-Reads true)) (
            if-Keeps f (str_eq p.spec.node_name "") (Reads-Keeps f (pure-Reads false))
              (attach_on_target-Keeps p))))

    follow_target-Keeps : (p : Pod K) → Keeps f (follow_target c b p)
    unfolding follow_target
    follow_target-Keeps p =
        then-Keeps f (update_migration-Keeps (set_target p.meta.uid p.spec.node_name) (λ m. refl)) (
          bind-Keeps f (volumes_on_target-Keeps p) (λ a. when_do-Keeps f _ (
            update_migration-Keeps (set_migration_phase VirtualMachineMigrationPhase.scheduled)
              (λ m. refl))))

    target_with-Keeps : (name : String) (p : Option (Pod K)) → Keeps f (target_with c b name p)
    unfolding target_with
    target_with-Keeps name none = create_target_pod-Keeps name
    target_with-Keeps name (some p) = follow_target-Keeps p

    name_target-Keeps : Keeps f (name_target c b)
    unfolding name_target
    name_target-Keeps =
        bind-Keeps f (Reads-Keeps f (generate_pod_name-Reads c))
          (λ name. update_migration-Keeps (set_target_name name) (λ m. refl))

    schedule_target-Keeps : (name : String) → Keeps f (schedule_target c b name)
    unfolding schedule_target
    schedule_target-Keeps name =
        bind-Keeps f (Reads-Keeps f (get_vm_pod-Reads c name)) (λ p. target_with-Keeps name p)

    migration_at-Keeps :
        (name : String) (p : VirtualMachineMigrationPhase) → Keeps f (migration_at c b name p)
    unfolding migration_at
    migration_at-Keeps name VirtualMachineMigrationPhase.unset = name_target-Keeps
    migration_at-Keeps name VirtualMachineMigrationPhase.pending = name_target-Keeps
    migration_at-Keeps name VirtualMachineMigrationPhase.scheduling = schedule_target-Keeps name
    migration_at-Keeps name VirtualMachineMigrationPhase.scheduled = Reads-Keeps f (pure-Reads tt)
    migration_at-Keeps name VirtualMachineMigrationPhase.target_ready =
        Reads-Keeps f (pure-Reads tt)
    migration_at-Keeps name VirtualMachineMigrationPhase.running = Reads-Keeps f (pure-Reads tt)
    migration_at-Keeps name VirtualMachineMigrationPhase.sent = Reads-Keeps f (pure-Reads tt)
    migration_at-Keeps name VirtualMachineMigrationPhase.succeeded = Reads-Keeps f (pure-Reads tt)
    migration_at-Keeps name VirtualMachineMigrationPhase.failed = Reads-Keeps f (pure-Reads tt)

    reconcile_migration-Keeps :
        (m : VirtualMachineStatusMigration) → Keeps f (reconcile_migration c b m)
    unfolding reconcile_migration
    reconcile_migration-Keeps m = migration_at-Keeps m.target_vm_pod_name m.phase

    module _
        (volumes : (vm : VirtualMachine K) (ss : List VolumeStatus)
          → f (set_volume_status vm ss) ≡ f vm)
        (conditions : (p : Pod K) (vm : VirtualMachine K) → f (set_conditions c p vm) ≡ f vm) where
      unless_migrating-Keeps :
          (p : Pod K) (m : Option VirtualMachineStatusMigration)
          → Keeps f (unless_migrating c b p m)
      unless_migrating-Keeps p (some m) = reconcile_migration-Keeps m
      unless_migrating-Keeps p none = bind-Keeps f (Reads-Keeps f current-Reads) (λ vm.
          then-Keeps f (Reads-Keeps f (handle_hotplug_volumes-Reads c b.image vm p false))
            (update_hotplug_volume_status-Keeps c f volumes p))

      pub stay_running-Keeps : (p : Pod K) → Keeps f (stay_running c b p)
      unfolding stay_running
      stay_running-Keeps p =
          change_then-Keeps f (set_conditions c p)
            (λ vm. unless_migrating c b p vm.status.migration) (conditions p)
            (λ vm. unless_migrating-Keeps p vm.status.migration)
