-- ===== src/Machine/Reconcile/MigrationMoves.antt =====
-- The phases of a migration that the machine's controller moves: `reconcile` of
-- pkg/controller/vm_controller.go, between the migration's own controller and the daemons of the two nodes.
use virtink.Prelude.{◌≡◌, refl, sym, subst, ap, String, Option, none, some, false}
use virtink.Api.{
  Kube, VirtualMachinePhase, VirtualMachineStatusMigration, VirtualMachineMigrationPhase, Pod,
}
use virtink.Machine.Monad.{Cluster, State, final, ◌>>=◌, ◌>>◌, current, put, pure}
use virtink.Machine.Reads.{current-Reads, pure-Reads}
use virtink.Machine.Keeps.{Reads-Keeps, bind-Keeps, then-Keeps}
use virtink.Machine.Leads.{
  Leads, Keeps-Leads, later-Leads, when_do-Leads, change-Leads, weaken-Leads, prepare-Leads,
}
use virtink.Machine.VolumePods.{handle_hotplug_volumes-Reads}
use virtink.Machine.VolumeStatus.{update_hotplug_volume_status-Keeps}
use virtink.Machine.Build.Draft.{Builder}
use virtink.Machine.Reconcile.Running.{
  map_slot, on_migration, update_migration, set_target_name, set_conditions, run_phase, name_target,
  migration_at, reconcile_migration, unless_migrating, stay_running, running_with,
  reconcile_running,
}
use virtink.Machine.Reconcile.Ended.{reconcile_phase, reconcile}
use virtink.Machine.Reconcile.Kept.{get_vm_pod-Reads, generate_pod_name-Reads}
use virtink.Machine.Reconcile.Lifecycle.{IsIdle}
use virtink.Machine.Reconcile.Slot.{
  fail_machine-Keeps, reconcile_pending-Keeps, reconcile_scheduling-Keeps,
}
use virtink.Machine.Reconcile.Refinement.{UpdateKeepsStatus, whole-Leads}
use virtink.Machine.Reconcile.Placing.{Slot, phase_in, seen, Placing, schedule_target-Leads}

-- The moves of a migration's phase, or of no migration, that the machine's controller makes.
pub data MigrationMove
    : Option VirtualMachineMigrationPhase → Option VirtualMachineMigrationPhase → Type 0 where
  stays : (p : Option VirtualMachineMigrationPhase) → MigrationMove p p
  accepted :
      MigrationMove
        (some VirtualMachineMigrationPhase.unset)
        (some VirtualMachineMigrationPhase.scheduling)
  requested :
      MigrationMove
        (some VirtualMachineMigrationPhase.pending)
        (some VirtualMachineMigrationPhase.scheduling)
  target_ready :
      MigrationMove
        (some VirtualMachineMigrationPhase.scheduling)
        (some VirtualMachineMigrationPhase.scheduled)
  target_lost :
      MigrationMove
        (some VirtualMachineMigrationPhase.scheduling)
        (some VirtualMachineMigrationPhase.failed)

Placing-Move :
    {p : Slot} → Placing p → MigrationMove (some VirtualMachineMigrationPhase.scheduling) p
Placing-Move Placing.scheduling = stays _
Placing-Move Placing.scheduled = target_ready
Placing-Move Placing.failed = target_lost

module _ {K : Kube} (c : Cluster K) (b : Builder K) where
  -- A migration that asks for a target pod.
  abbrev Named : VirtualMachineMigrationPhase → Slot → Slot → Type 0
  Named p x y =
      x ≡ some p
      → MigrationMove (some p) (some VirtualMachineMigrationPhase.scheduling)
      → MigrationMove x y

  named :
      (p : VirtualMachineMigrationPhase) (name : String) (m : Option VirtualMachineStatusMigration)
      → Named p (phase_in m) (phase_in (map_slot (set_target_name name) m))
  named p name none e h = stays _
  named p name (some g) e h =
      subst (λ x. MigrationMove x (some VirtualMachineMigrationPhase.scheduling)) (sym e) h

  name_target-Leads : (p : VirtualMachineMigrationPhase) → Leads seen (Named p) (name_target c b)
  unfolding name_target update_migration
  name_target-Leads p =
      later-Leads seen (Named p) (λ x e h. stays x) (Reads-Keeps seen (generate_pod_name-Reads c))
        (λ name.
          change-Leads seen (Named p) (λ x e h. stays x) (on_migration (set_target_name name))
            (λ vm. named p name vm.status.migration))

  abbrev At : VirtualMachineMigrationPhase → Slot → Slot → Type 0
  At p x y = x ≡ some p → MigrationMove x y

  kept-Leads :
      (p : VirtualMachineMigrationPhase) → Leads {K = K} seen (At p) {A = Unit {0}} (pure tt)
  kept-Leads p = Keeps-Leads seen (At p) (λ x e. stays x) (Reads-Keeps seen (pure-Reads tt))

  migration_at-Leads :
      (name : String) (p : VirtualMachineMigrationPhase)
      → Leads seen (At p) (migration_at c b name p)
  unfolding migration_at
  migration_at-Leads name VirtualMachineMigrationPhase.unset =
      weaken-Leads seen _ (λ x y h e. h e accepted)
        (name_target-Leads VirtualMachineMigrationPhase.unset)
  migration_at-Leads name VirtualMachineMigrationPhase.pending =
      weaken-Leads seen _ (λ x y h e. h e requested)
        (name_target-Leads VirtualMachineMigrationPhase.pending)
  migration_at-Leads name VirtualMachineMigrationPhase.scheduling =
      weaken-Leads seen _
        (λ x y h e.
          subst (λ z. MigrationMove z y) (sym e)
            (Placing-Move (h (subst Placing (sym e) Placing.scheduling))))
        (schedule_target-Leads c b name)
  migration_at-Leads name VirtualMachineMigrationPhase.scheduled = kept-Leads _
  migration_at-Leads name VirtualMachineMigrationPhase.target_ready = kept-Leads _
  migration_at-Leads name VirtualMachineMigrationPhase.running = kept-Leads _
  migration_at-Leads name VirtualMachineMigrationPhase.sent = kept-Leads _
  migration_at-Leads name VirtualMachineMigrationPhase.succeeded = kept-Leads _
  migration_at-Leads name VirtualMachineMigrationPhase.failed = kept-Leads _

  unless_migrating-moves :
      (p : Pod K) (m : Option VirtualMachineStatusMigration) (s : State K)
      → s.vm.status.migration ≡ m
      → MigrationMove (seen s.vm) (seen (final (unless_migrating c b p m s)).vm)
  unfolding reconcile_migration
  unless_migrating-moves p (some g) s e =
      (migration_at-Leads g.target_vm_pod_name g.phase).run s (ap phase_in e)
  unless_migrating-moves p none s e =
      (Keeps-Leads seen MigrationMove stays (
          bind-Keeps seen (Reads-Keeps seen current-Reads) (λ vm.
            then-Keeps seen (Reads-Keeps seen (handle_hotplug_volumes-Reads c b.image vm p false))
              (update_hotplug_volume_status-Keeps c seen (λ v ss. refl) p)))).run
        s

  stay_running-Leads : (p : Pod K) → Leads seen MigrationMove (stay_running c b p)
  unfolding stay_running ◌>>=◌ ◌>>◌ current put
  stay_running-Leads p = record {
    run = λ s.
        unless_migrating-moves p s.vm.status.migration (record s { vm = set_conditions c p s.vm })
          refl;
  }

  running_with-Leads : (p : Option (Pod K)) → Leads seen MigrationMove (running_with c b p)
  unfolding running_with
  running_with-Leads none = Keeps-Leads seen MigrationMove stays (fail_machine-Keeps c b phase_in)
  running_with-Leads (some p) =
      prepare-Leads seen MigrationMove (run_phase p) _ (λ vm. refl)
        (λ vm. when_do-Leads seen MigrationMove stays _ (stay_running-Leads p))

  phase-Leads :
      (p : VirtualMachinePhase) → ¬ (IsIdle p) → Leads seen MigrationMove (reconcile_phase c b p)
  unfolding reconcile_phase reconcile_running
  phase-Leads VirtualMachinePhase.pending h =
      Keeps-Leads seen MigrationMove stays (reconcile_pending-Keeps c b phase_in)
  phase-Leads VirtualMachinePhase.scheduling h =
      Keeps-Leads seen MigrationMove stays (reconcile_scheduling-Keeps c b phase_in)
  phase-Leads VirtualMachinePhase.scheduled h =
      Keeps-Leads seen MigrationMove stays (reconcile_scheduling-Keeps c b phase_in)
  phase-Leads VirtualMachinePhase.running h =
      later-Leads seen MigrationMove stays (Reads-Keeps seen current-Reads) (λ vm.
        later-Leads seen MigrationMove stays (Reads-Keeps seen (get_vm_pod-Reads c _))
          running_with-Leads)
  phase-Leads VirtualMachinePhase.unknown h =
      Keeps-Leads seen MigrationMove stays (Reads-Keeps seen (pure-Reads tt))
  phase-Leads VirtualMachinePhase.unset h = absurd (h IsIdle.fresh)
  phase-Leads VirtualMachinePhase.succeeded h = absurd (h IsIdle.succeeded)
  phase-Leads VirtualMachinePhase.failed h = absurd (h IsIdle.failed)

  -- Where an update of the object leaves its status alone, the reconciliation of a machine that is
  -- pending, placed or unknown moves the phase of its migration only from unset or pending to scheduling,
  -- and from scheduling to scheduled or failed, also when it ends in an error; it starts and drops none.
  pub reconcile-MigrationMove :
      UpdateKeepsStatus c
      → (s : State K) → ¬ (IsIdle s.vm.status.phase)
      → MigrationMove
          (phase_in s.vm.status.migration)
          (phase_in (final (reconcile c b s)).vm.status.migration)
  unfolding reconcile ◌>>=◌ current
  reconcile-MigrationMove kept s h =
      (whole-Leads c b (λ t. phase_in t.migration) MigrationMove stays kept (λ x. Unit {0})
          s.vm.status.phase (record { run = λ t u. (phase-Leads s.vm.status.phase h).run t }) s.vm
          refl).run
        s tt
