-- ===== src/Machine/Reconcile/Lifecycle.antt =====
-- The life of a machine as its phases, and `reconcile` of pkg/controller/vm_controller.go as a refinement
-- of it.
use virtink.Prelude.{◌≡◌, refl, sym, subst, Option, none, some, Bool, true, false, if◌then◌else◌}
use virtink.Api.{Kube, VirtualMachine, VirtualMachinePhase, Pod, PodPhase}
use virtink.Machine.Monad.{Cluster}
use virtink.Machine.Reads.{current-Reads}
use virtink.Machine.Keeps.{Reads-Keeps, when_do-Keeps}
use virtink.Machine.Leads.{
  Leads, Keeps-Leads, later-Leads, later_then-Leads, if-Leads, when_do-Leads, change-Leads,
  change_then-Leads, prepare-Leads,
}
use virtink.Machine.Cleanup.{delete_all_vm_pods-Reads}
use virtink.Machine.VolumePods.{handle_hotplug_volumes-Reads}
use virtink.Machine.VolumeStatus.{update_hotplug_volume_status-Keeps}
use virtink.Machine.Build.Draft.{Builder}
use virtink.Machine.Reconcile.Scheduling.{
  set_node, follow_phase, scheduled_phase, fail_machine, missing_pod, follow_pod, scheduling_with,
  reconcile_scheduling, reconcile_pending,
}
use virtink.Machine.Reconcile.Running.{run_phase, running_phase, running_with, reconcile_running}
use virtink.Machine.Reconcile.Ended.{restarted, restart, reconcile_ended}
use virtink.Machine.Reconcile.Kept.{
  get_vm_pod-Reads, generate_pod_name-Reads, create_vm_pod-Keeps, stay_running-Keeps,
}

-- The phases in which the machine has a pod, in which it has ended, and from which it may start.
pub data IsPlaced : VirtualMachinePhase → Type 0 where
  scheduling : IsPlaced VirtualMachinePhase.scheduling
  scheduled : IsPlaced VirtualMachinePhase.scheduled
  running : IsPlaced VirtualMachinePhase.running

pub data IsEnd : VirtualMachinePhase → Type 0 where
  succeeded : IsEnd VirtualMachinePhase.succeeded
  failed : IsEnd VirtualMachinePhase.failed
  unknown : IsEnd VirtualMachinePhase.unknown

pub data IsIdle : VirtualMachinePhase → Type 0 where
  fresh : IsIdle VirtualMachinePhase.unset
  succeeded : IsIdle VirtualMachinePhase.succeeded
  failed : IsIdle VirtualMachinePhase.failed

-- One move of the controller. That a scheduled machine runs is said by the daemon on its node.
pub data Lifecycle : VirtualMachinePhase → VirtualMachinePhase → Type 0 where
  stays : (p : VirtualMachinePhase) → Lifecycle p p
  starts : {p : VirtualMachinePhase} → IsIdle p → Lifecycle p VirtualMachinePhase.pending
  gets_pod : Lifecycle VirtualMachinePhase.pending VirtualMachinePhase.scheduling
  gets_ready : Lifecycle VirtualMachinePhase.scheduling VirtualMachinePhase.scheduled
  ends : {p q : VirtualMachinePhase} → IsPlaced p → IsEnd q → Lifecycle p q

abbrev pub phase_of : {K : Kube} → VirtualMachine K → VirtualMachinePhase
phase_of vm = vm.status.phase

-- Moves from the phases of a predicate.
abbrev pub From :
    (VirtualMachinePhase → Type 0) → VirtualMachinePhase → VirtualMachinePhase → Type 0
From P p q = P p → Lifecycle p q

pub data IsScheduling : VirtualMachinePhase → Type 0 where
  scheduling : IsScheduling VirtualMachinePhase.scheduling
  scheduled : IsScheduling VirtualMachinePhase.scheduled

placed : {p : VirtualMachinePhase} → IsScheduling p → IsPlaced p
placed scheduling = IsPlaced.scheduling
placed scheduled = IsPlaced.scheduled

scheduled_phase-Lifecycle :
    (attached : Bool) {p : VirtualMachinePhase} (pod : PodPhase)
    → IsScheduling p
    → Lifecycle p (scheduled_phase attached p pod)
scheduled_phase-Lifecycle true PodPhase.running scheduling = gets_ready
scheduled_phase-Lifecycle false PodPhase.running scheduling = stays _
scheduled_phase-Lifecycle attached PodPhase.running scheduled = stays _
scheduled_phase-Lifecycle attached PodPhase.succeeded h = ends (placed h) IsEnd.succeeded
scheduled_phase-Lifecycle attached PodPhase.failed h = ends (placed h) IsEnd.failed
scheduled_phase-Lifecycle attached PodPhase.unknown h = ends (placed h) IsEnd.unknown
scheduled_phase-Lifecycle attached PodPhase.unset h = stays _
scheduled_phase-Lifecycle attached PodPhase.pending h = stays _

running_phase-Lifecycle :
    (migrating : Bool) (pod : PodPhase)
    → Lifecycle VirtualMachinePhase.running (running_phase migrating pod)
running_phase-Lifecycle true PodPhase.succeeded = stays _
running_phase-Lifecycle false PodPhase.succeeded = ends IsPlaced.running IsEnd.succeeded
running_phase-Lifecycle migrating PodPhase.failed = ends IsPlaced.running IsEnd.failed
running_phase-Lifecycle migrating PodPhase.unknown = ends IsPlaced.running IsEnd.unknown
running_phase-Lifecycle migrating PodPhase.unset = stays _
running_phase-Lifecycle migrating PodPhase.pending = stays _
running_phase-Lifecycle migrating PodPhase.running = stays _

restart-phase :
    (again : Bool) {p : VirtualMachinePhase}
    → IsIdle p
    → Lifecycle p (if again then VirtualMachinePhase.pending else p)
restart-phase true h = starts h
restart-phase false h = stays _

module _ (P : VirtualMachinePhase → Type 0) where
  pub same : (p : VirtualMachinePhase) → From P p p
  same p h = stays p

module _ {K : Kube} (c : Cluster K) (b : Builder K) where
  pub reconcile_pending-Leads :
      Leads phase_of (From (λ p. p ≡ VirtualMachinePhase.pending)) (reconcile_pending c)
  unfolding reconcile_pending
  reconcile_pending-Leads =
      later-Leads phase_of _ (same _) (Reads-Keeps phase_of (generate_pod_name-Reads c)) (λ name.
        change-Leads phase_of _ (same _) _
          (λ vm e. subst (λ p. Lifecycle p VirtualMachinePhase.scheduling) (sym e) gets_pod))

  fail_machine-Leads :
      (P : VirtualMachinePhase → Type 0)
      → ((p : VirtualMachinePhase) → P p → IsPlaced p)
      → Leads phase_of (From P) (fail_machine c b)
  unfolding fail_machine
  fail_machine-Leads P h =
      change-Leads phase_of (From P) (same P) _ (λ vm e. ends (h _ e) IsEnd.failed)

  scheduling_with-Leads :
      (p : Option (Pod K)) → Leads phase_of (From IsScheduling) (scheduling_with c b p)
  unfolding scheduling_with missing_pod follow_pod
  scheduling_with-Leads none =
      later-Leads phase_of _ (same _) (Reads-Keeps phase_of current-Reads) (λ vm.
        if-Leads phase_of _ (same _) _
          (Keeps-Leads phase_of _ (same _) (create_vm_pod-Keeps c b phase_of (λ p v. refl) _))
          (fail_machine-Leads IsScheduling (λ p h. placed h)))
  scheduling_with-Leads (some p) =
      prepare-Leads phase_of _ (set_node p) _ (λ vm. refl)
        (λ old. later-Leads phase_of _ (same _) (Reads-Keeps phase_of current-Reads) (λ vm.
          later_then-Leads phase_of _ (same _)
            (when_do-Keeps phase_of _
              (Reads-Keeps phase_of (handle_hotplug_volumes-Reads c b.image vm p true)))
            (change_then-Leads phase_of _ (follow_phase p) _
              (λ now. scheduled_phase-Lifecycle _ p.status.phase)
              (λ now. update_hotplug_volume_status-Keeps c phase_of (λ v ss. refl) p))))

  pub reconcile_scheduling-Leads : Leads phase_of (From IsScheduling) (reconcile_scheduling c b)
  unfolding reconcile_scheduling
  reconcile_scheduling-Leads =
      later-Leads phase_of _ (same _) (Reads-Keeps phase_of current-Reads) (λ vm.
        later-Leads phase_of _ (same _) (Reads-Keeps phase_of (get_vm_pod-Reads c _))
          scheduling_with-Leads)

  abbrev IsRunning : VirtualMachinePhase → Type 0
  IsRunning p = p ≡ VirtualMachinePhase.running

  running_with-Leads : (p : Option (Pod K)) → Leads phase_of (From IsRunning) (running_with c b p)
  unfolding running_with
  running_with-Leads none =
      fail_machine-Leads IsRunning (λ p e. subst IsPlaced (sym e) IsPlaced.running)
  running_with-Leads (some p) =
      change_then-Leads phase_of _ (run_phase p) _
        (λ vm e.
          subst (λ q. Lifecycle q (run_phase p vm).status.phase) (sym e)
            (running_phase-Lifecycle _ p.status.phase))
        (λ vm. when_do-Keeps phase_of _ (
          stay_running-Keeps c b phase_of (λ q v. refl) (λ g h v. refl) (λ v ss. refl) (λ q v. refl)
            p))

  pub reconcile_running-Leads : Leads phase_of (From IsRunning) (reconcile_running c b)
  unfolding reconcile_running
  reconcile_running-Leads =
      later-Leads phase_of _ (same _) (Reads-Keeps phase_of current-Reads) (λ vm.
        later-Leads phase_of _ (same _) (Reads-Keeps phase_of (get_vm_pod-Reads c _))
          running_with-Leads)

  pub reconcile_ended-Leads : Leads phase_of (From IsIdle) (reconcile_ended c)
  unfolding reconcile_ended restart
  reconcile_ended-Leads =
      later-Leads phase_of _ (same _) (Reads-Keeps phase_of current-Reads) (λ vm.
        later-Leads phase_of _ (same _) (Reads-Keeps phase_of (delete_all_vm_pods-Reads c vm))
          (λ gone.
            when_do-Leads phase_of _ (same _) gone
              (change-Leads phase_of _ (same _) restarted (λ now. restart-phase _))))
