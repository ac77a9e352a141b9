-- ===== src/Machine/Reconcile/Placing.antt =====
-- The search for a pod on the target node, in `reconcile` of pkg/controller/vm_controller.go, leaves a
-- migration in one of three phases.
use virtink.Prelude.{
  ◌≡◌, refl, ap, String, Option, none, some, is_empty, str_eq, List, [], ◌∷◌, true, false,
}
use virtink.Api.{
  Kube, VirtualMachine, VirtualMachineStatusMigration, VirtualMachineMigrationPhase, Pod,
}
use virtink.Machine.Monad.{Cluster}
use virtink.Machine.Reads.{current-Reads, pure-Reads}
use virtink.Machine.Keeps.{Keeps, Reads-Keeps}
use virtink.Machine.Leads.{
  Leads, Keeps-Leads, later-Leads, later_then-Leads, if-Leads, when_do-Leads, change-Leads,
  both-Leads, both_then-Leads, change-Keeps,
}
use virtink.Machine.Hotplug.{get_hotplug_volumes, get_hotplug_volume_pods-Reads}
use virtink.Machine.VolumePods.{handle_hotplug_volumes-Reads}
use virtink.Machine.VolumeStatus.{set_volume_status}
use virtink.Machine.Build.Draft.{Builder}
use virtink.Machine.Reconcile.Running.{
  map_slot, on_migration, update_migration, set_migration_phase, set_target, set_volume_pod,
  volume_pods_ready, attach_on_target, fail_migration, volumes_on_target, follow_target,
  target_with, schedule_target,
}
use virtink.Machine.Reconcile.Kept.{get_vm_pod-Reads, create_target_pod-Keeps}

abbrev pub Slot : Type 0
Slot = Option VirtualMachineMigrationPhase

-- The phases while and after a pod on the target node is looked for.
pub data Placing : Slot → Type 0 where
  scheduling : Placing (some VirtualMachineMigrationPhase.scheduling)
  scheduled : Placing (some VirtualMachineMigrationPhase.scheduled)
  failed : Placing (some VirtualMachineMigrationPhase.failed)

abbrev pub phase_in : Option VirtualMachineStatusMigration → Slot
phase_in none = none
phase_in (some g) = some g.phase

abbrev pub seen : {K : Kube} → VirtualMachine K → Slot
seen vm = phase_in vm.status.migration

abbrev pub Places : Slot → Slot → Type 0
Places x y = Placing x → Placing y

same : (x : Slot) → Places x x
same x h = h

chain : (x y z : Slot) → Places x y → Places y z → Places x z
chain x y z f g h = g (f h)

-- To a phase of a migration in which a target is looked for.
to_phase :
    (p : VirtualMachineMigrationPhase)
    → Placing (some p)
    → (m : Option VirtualMachineStatusMigration)
    → Places (phase_in m) (phase_in (map_slot (set_migration_phase p) m))
to_phase p h none k = k
to_phase p h (some g) k = h

map_slot-phase :
    (f : VirtualMachineStatusMigration → VirtualMachineStatusMigration)
    → ((m : VirtualMachineStatusMigration) → (f m).phase ≡ m.phase)
    → (m : Option VirtualMachineStatusMigration) → phase_in (map_slot f m) ≡ phase_in m
map_slot-phase f h none = refl
map_slot-phase f h (some m) = ap some (h m)

module _ {K : Kube} (c : Cluster K) (b : Builder K) where
  set_phase-Leads :
      (p : VirtualMachineMigrationPhase)
      → Placing (some p)
      → Leads {K = K} seen Places (update_migration (set_migration_phase p))
  unfolding update_migration
  set_phase-Leads p h =
      change-Leads seen Places same (on_migration (set_migration_phase p))
        (λ vm. to_phase p h vm.status.migration)

  other-Keeps :
      (f : VirtualMachineStatusMigration → VirtualMachineStatusMigration)
      → ((m : VirtualMachineStatusMigration) → (f m).phase ≡ m.phase)
      → Keeps {K = K} seen (update_migration f)
  unfolding update_migration
  other-Keeps f h =
      change-Keeps seen (on_migration f) (λ vm. map_slot-phase f h vm.status.migration)

  volume_pods_ready-Leads : (ps : List (Pod K)) → Leads seen Places (volume_pods_ready c b ps)
  unfolding volume_pods_ready
  volume_pods_ready-Leads [] = Keeps-Leads seen Places same (Reads-Keeps seen (pure-Reads _))
  volume_pods_ready-Leads (p ∷ ps) =
      later_then-Leads seen Places same (other-Keeps (set_volume_pod p.meta.uid) (λ m. refl)) (
        both_then-Leads seen Places chain
          (when_do-Leads seen Places same _
            (set_phase-Leads VirtualMachineMigrationPhase.failed Placing.failed))
          (Keeps-Leads seen Places same (Reads-Keeps seen (pure-Reads _))))

  attach_on_target-Leads : (p : Pod K) → Leads seen Places (attach_on_target c b p)
  unfolding attach_on_target
  attach_on_target-Leads p = later-Leads seen Places same (Reads-Keeps seen current-Reads) (λ vm.
      later_then-Leads seen Places same
        (Reads-Keeps seen (handle_hotplug_volumes-Reads c b.image (set_volume_status vm []) p true))
        (later-Leads seen Places same (Reads-Keeps seen (get_hotplug_volume_pods-Reads c p))
          volume_pods_ready-Leads))

  fail_migration-Leads : Leads seen Places (fail_migration c b)
  unfolding fail_migration
  fail_migration-Leads =
      both_then-Leads seen Places chain
        (set_phase-Leads VirtualMachineMigrationPhase.failed Placing.failed)
        (Keeps-Leads seen Places same (Reads-Keeps seen (pure-Reads _)))

  volumes_on_target-Leads : (p : Pod K) → Leads seen Places (volumes_on_target c b p)
  unfolding volumes_on_target
  volumes_on_target-Leads p = later-Leads seen Places same (Reads-Keeps seen current-Reads) (λ vm.
      if-Leads seen Places same _ fail_migration-Leads (
        if-Leads seen Places same (is_empty (get_hotplug_volumes vm p))
          (Keeps-Leads seen Places same (Reads-Keeps seen (pure-Reads true)))
          (if-Leads seen Places same (str_eq p.spec.node_name "")
            (Keeps-Leads seen Places same (Reads-Keeps seen (pure-Reads false)))
            (attach_on_target-Leads p))))

  follow_target-Leads : (p : Pod K) → Leads seen Places (follow_target c b p)
  unfolding follow_target
  follow_target-Leads p =
      later_then-Leads seen Places same
        (other-Keeps (set_target p.meta.uid p.spec.node_name) (λ m. refl))
        (both-Leads seen Places chain (volumes_on_target-Leads p) (λ a.
          when_do-Leads seen Places same _
            (set_phase-Leads VirtualMachineMigrationPhase.scheduled Placing.scheduled)))

  target_with-Leads :
      (name : String) (p : Option (Pod K)) → Leads seen Places (target_with c b name p)
  unfolding target_with
  target_with-Leads name none =
      Keeps-Leads seen Places same (create_target_pod-Keeps c b seen (λ p vm. refl) name)
  target_with-Leads name (some p) = follow_target-Leads p

  pub schedule_target-Leads : (name : String) → Leads seen Places (schedule_target c b name)
  unfolding schedule_target
  schedule_target-Leads name =
      later-Leads seen Places same (Reads-Keeps seen (get_vm_pod-Reads c name))
        (target_with-Leads name)
