-- ===== src/Machine/Reconcile/Theorems.antt =====
-- The machine's controller, pkg/controller/vm_controller.go, as the life of the machine sees it and as the
-- migrations of the machine see it.
use virtink.Prelude.{◌⊎◌, inl, inr, ◌≡◌, refl, sym, subst, ap, String, Option, none, some, List}
use virtink.Api.{
  Kube, VirtualMachine, VirtualMachineStatus, VirtualMachinePhase, VirtualMachineStatusMigration,
  Pod,
}
use virtink.Machine.Monad.{Cluster, State, final, Call, ◌>>=◌, current, pure}
use virtink.Machine.Reads.{current-Reads, pure-Reads}
use virtink.Machine.Keeps.{Keeps, Reads-Keeps, bind-Keeps, when_do-Keeps}
use virtink.Machine.Leads.{
  Keeps-Leads, later-Leads, when_do-Leads, change-Leads, Leads, weaken-Leads, change_then-Keeps,
}
use virtink.Machine.Build.Draft.{Builder}
use virtink.Machine.Reconcile.Running.{run_phase, running_with, reconcile_running, map_slot}
use virtink.Machine.Reconcile.Ended.{
  restarted, restart, reconcile_ended, reconcile_phase, reconcile,
}
use virtink.Machine.Cleanup.{delete_all_vm_pods-Reads}
use virtink.Machine.Reconcile.Kept.{get_vm_pod-Reads, stay_running-Keeps}
use virtink.Machine.Reconcile.Lifecycle.{
  Lifecycle, stays, IsIdle, IsScheduling, phase_of, reconcile_pending-Leads,
  reconcile_scheduling-Leads, reconcile_running-Leads, reconcile_ended-Leads,
}
use virtink.Machine.Reconcile.Slot.{
  fail_machine-Keeps, reconcile_pending-Keeps, reconcile_scheduling-Keeps,
}
use virtink.Machine.Reconcile.Refinement.{UpdateKeepsStatus, whole-Leads}
use virtink.Migration.Ownership.{HeldBy}
use virtink.Migration.Exclusion.{World, IsExclusive}

abbrev at_phase : VirtualMachineStatus → VirtualMachinePhase
at_phase s = s.phase

module _ {K : Kube} (c : Cluster K) (b : Builder K) where
  phase-Leads :
      (p : VirtualMachinePhase)
      → Leads phase_of (λ x y. x ≡ p → Lifecycle x y) (reconcile_phase c b p)
  unfolding reconcile_phase pure
  phase-Leads VirtualMachinePhase.pending = reconcile_pending-Leads c b
  phase-Leads VirtualMachinePhase.scheduling =
      weaken-Leads phase_of _ (λ x y h e. h (subst IsScheduling (sym e) IsScheduling.scheduling))
        (reconcile_scheduling-Leads c b)
  phase-Leads VirtualMachinePhase.scheduled =
      weaken-Leads phase_of _ (λ x y h e. h (subst IsScheduling (sym e) IsScheduling.scheduled))
        (reconcile_scheduling-Leads c b)
  phase-Leads VirtualMachinePhase.running = reconcile_running-Leads c b
  phase-Leads VirtualMachinePhase.unset =
      weaken-Leads phase_of _ (λ x y h e. h (subst IsIdle (sym e) IsIdle.fresh))
        (reconcile_ended-Leads c b)
  phase-Leads VirtualMachinePhase.succeeded =
      weaken-Leads phase_of _ (λ x y h e. h (subst IsIdle (sym e) IsIdle.succeeded))
        (reconcile_ended-Leads c b)
  phase-Leads VirtualMachinePhase.failed =
      weaken-Leads phase_of _ (λ x y h e. h (subst IsIdle (sym e) IsIdle.failed))
        (reconcile_ended-Leads c b)
  phase-Leads VirtualMachinePhase.unknown = record { run = λ s h. stays _ }

  -- Where an update of the object leaves its status alone, a run of `reconcile` moves the phase of the
  -- machine along the life of a machine by at most one move, also when it ends in an error.
  pub reconcile-Lifecycle :
      UpdateKeepsStatus c
      → (s : State K) → Lifecycle s.vm.status.phase (final (reconcile c b s)).vm.status.phase
  unfolding reconcile ◌>>=◌ current
  reconcile-Lifecycle kept s =
      (whole-Leads c b at_phase Lifecycle stays kept (λ x. x ≡ s.vm.status.phase) s.vm.status.phase
          (phase-Leads s.vm.status.phase) s.vm refl).run
        s refl

abbrev pub uid_of : Option VirtualMachineStatusMigration → Option String
uid_of none = none
uid_of (some g) = some g.uid

map_slot-uid :
    (g : VirtualMachineStatusMigration → VirtualMachineStatusMigration)
    → ((m : VirtualMachineStatusMigration) → (g m).uid ≡ m.uid)
    → (m : Option VirtualMachineStatusMigration) → uid_of (map_slot g m) ≡ uid_of m
map_slot-uid g h none = refl
map_slot-uid g h (some m) = ap some (h m)

pub HeldBy-uid_of :
    (m n : Option VirtualMachineStatusMigration)
    → uid_of n ≡ uid_of m
    → (uid : String) → HeldBy m uid
    → HeldBy n uid
HeldBy-uid_of none n e uid h = absurd h
HeldBy-uid_of (some m) none e uid h = cc
HeldBy-uid_of (some m) (some n) e uid h = cc

abbrev slot : VirtualMachineStatus → Option String
slot s = uid_of s.migration

abbrev slot_of : {K : Kube} → VirtualMachine K → Option String
slot_of vm = slot vm.status

uid_of-none : (m : Option VirtualMachineStatusMigration) → uid_of m ≡ none → m ≡ none
uid_of-none none e = refl
uid_of-none (some g) e = cc

-- What a run does to the UID in the slot: nothing, or it clears the slot of a machine that does not run.
abbrev pub SlotMove : VirtualMachinePhase → Option String → Option String → Type 0
SlotMove phase x y = (y ≡ x) ⊎ (IsIdle phase × (y ≡ none))

module _ {K : Kube} (c : Cluster K) (b : Builder K) where
  running_with-Keeps : (p : Option (Pod K)) → Keeps slot_of (running_with c b p)
  unfolding running_with
  running_with-Keeps none = fail_machine-Keeps c b uid_of
  running_with-Keeps (some p) =
      change_then-Keeps slot_of (run_phase p) _ (λ vm. refl)
        (λ vm. when_do-Keeps slot_of _ (
          stay_running-Keeps c b slot_of (λ q v. refl)
            (λ g h v. map_slot-uid g h v.status.migration) (λ v ss. refl) (λ q v. refl) p))

  slot-Keeps : (p : VirtualMachinePhase) → ¬ (IsIdle p) → Keeps slot_of (reconcile_phase c b p)
  unfolding reconcile_phase reconcile_running
  slot-Keeps VirtualMachinePhase.pending h = reconcile_pending-Keeps c b uid_of
  slot-Keeps VirtualMachinePhase.scheduling h = reconcile_scheduling-Keeps c b uid_of
  slot-Keeps VirtualMachinePhase.scheduled h = reconcile_scheduling-Keeps c b uid_of
  slot-Keeps VirtualMachinePhase.running h =
      bind-Keeps slot_of (Reads-Keeps slot_of current-Reads)
        (λ vm. bind-Keeps slot_of (Reads-Keeps slot_of (get_vm_pod-Reads c _)) running_with-Keeps)
  slot-Keeps VirtualMachinePhase.unknown h = Reads-Keeps slot_of (pure-Reads tt)
  slot-Keeps VirtualMachinePhase.unset h = absurd (h IsIdle.fresh)
  slot-Keeps VirtualMachinePhase.succeeded h = absurd (h IsIdle.succeeded)
  slot-Keeps VirtualMachinePhase.failed h = absurd (h IsIdle.failed)

  unchanged_slot : (phase : VirtualMachinePhase) (x : Option String) → SlotMove phase x x
  unchanged_slot phase x = inl refl

  busy-Leads :
      (p : VirtualMachinePhase)
      → ¬ (IsIdle p)
      → Leads slot_of (λ x y. Unit {0} → SlotMove p x y) (reconcile_phase c b p)
  busy-Leads p h = Keeps-Leads slot_of _ (λ x u. unchanged_slot p x) (slot-Keeps p h)

  idle-Leads :
      (p : VirtualMachinePhase)
      → IsIdle p
      → Leads slot_of (λ x y. Unit {0} → SlotMove p x y) (reconcile_ended c)
  unfolding reconcile_ended restart
  idle-Leads p h =
      let same : (x : Option String) → Unit {0} → SlotMove p x x = λ x u. unchanged_slot p x in
      later-Leads slot_of _ same (Reads-Keeps slot_of current-Reads) (λ vm.
        later-Leads slot_of _ same (Reads-Keeps slot_of (delete_all_vm_pods-Reads c vm)) (λ gone.
          when_do-Leads slot_of _ same gone
            (change-Leads slot_of _ same restarted (λ now u. inr (h, refl)))))

  slot-Leads :
      (p : VirtualMachinePhase)
      → Leads slot_of (λ x y. Unit {0} → SlotMove p x y) (reconcile_phase c b p)
  unfolding reconcile_phase
  slot-Leads VirtualMachinePhase.pending = busy-Leads _ (λ h. elim h [ ])
  slot-Leads VirtualMachinePhase.scheduling = busy-Leads _ (λ h. elim h [ ])
  slot-Leads VirtualMachinePhase.scheduled = busy-Leads _ (λ h. elim h [ ])
  slot-Leads VirtualMachinePhase.running = busy-Leads _ (λ h. elim h [ ])
  slot-Leads VirtualMachinePhase.unknown = busy-Leads _ (λ h. elim h [ ])
  slot-Leads VirtualMachinePhase.unset = idle-Leads _ IsIdle.fresh
  slot-Leads VirtualMachinePhase.succeeded = idle-Leads _ IsIdle.succeeded
  slot-Leads VirtualMachinePhase.failed = idle-Leads _ IsIdle.failed

  pub reconcile-SlotMove :
      UpdateKeepsStatus c
      → (s : State K)
      → SlotMove s.vm.status.phase (slot_of s.vm) (slot_of (final (reconcile c b s)).vm)
  unfolding reconcile ◌>>=◌ current
  reconcile-SlotMove kept s =
      (whole-Leads c b slot (SlotMove s.vm.status.phase) (unchanged_slot s.vm.status.phase) kept
          (λ x. Unit {0}) s.vm.status.phase (slot-Leads s.vm.status.phase) s.vm refl).run
        s tt

  -- Where an update of the object leaves its status alone, a run of `reconcile` over a machine, also one
  -- that ends in an error, keeps it true that every active migration holds the machine's slot; or the
  -- machine was new, had succeeded or had failed, and no migration holds its slot after the run.
  pub reconcile-IsExclusive :
      UpdateKeepsStatus c
      → (calls : List (Call K)) (w : World K) → IsExclusive w
      → let vm' = (final (reconcile c b (record { vm = w.vm; calls = calls }))).vm in
        IsExclusive (record w { vm = vm' })
        ⊎ (IsIdle w.vm.status.phase × (vm'.status.migration ≡ none))
  reconcile-IsExclusive kept calls w inv =
      elim (reconcile-SlotMove kept (record { vm = w.vm; calls = calls })) [
        | inl same ↦ inl (record {
          named = inv.named;
          held = λ uid active. HeldBy-uid_of _ _ same uid (inv.held uid active);
        })
        | inr (idle, cleared) ↦ inr (idle, uid_of-none _ cleared)
      ]
