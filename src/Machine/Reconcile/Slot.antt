-- ===== src/Machine/Reconcile/Slot.antt =====
-- What `reconcile` of pkg/controller/vm_controller.go keeps of a migration while it only follows the pod of
-- the machine.
use virtink.Prelude.{refl, Option, none, some, true}
use virtink.Api.{Kube, VirtualMachine, VirtualMachineStatusMigration, Pod}
use virtink.Machine.Monad.{Cluster}
use virtink.Machine.Reads.{current-Reads}
use virtink.Machine.Keeps.{Keeps, Reads-Keeps, bind-Keeps, then-Keeps, if-Keeps, when_do-Keeps}
use virtink.Machine.Leads.{change-Keeps, change_then-Keeps}
use virtink.Machine.VolumePods.{handle_hotplug_volumes-Reads}
use virtink.Machine.VolumeStatus.{update_hotplug_volume_status-Keeps}
use virtink.Machine.Build.Draft.{Builder}
use virtink.Machine.Reconcile.Scheduling.{
  reconcile_pending, set_node, follow_phase, fail_machine, missing_pod, follow_pod, scheduling_with,
  reconcile_scheduling,
}
use virtink.Machine.Reconcile.Kept.{get_vm_pod-Reads, generate_pod_name-Reads, create_vm_pod-Keeps}

-- What the migration of a machine says, at a time when no migration is followed.
module _ {κ} {K : Kube} {X : Type κ} (c : Cluster K) (b : Builder K)
    (g : Option VirtualMachineStatusMigration → X) where
  abbrev of_slot : VirtualMachine K → X
  of_slot vm = g vm.status.migration

  pub fail_machine-Keeps : Keeps of_slot (fail_machine c b)
  unfolding fail_machine
  fail_machine-Keeps = change-Keeps of_slot _ (λ vm. refl)

  placed-Keeps : (p : Option (Pod K)) → Keeps of_slot (scheduling_with c b p)
  unfolding scheduling_with missing_pod follow_pod
  placed-Keeps none = bind-Keeps of_slot (Reads-Keeps of_slot current-Reads) (λ vm.
      if-Keeps of_slot _ (create_vm_pod-Keeps c b of_slot (λ p v. refl) _) fail_machine-Keeps)
  placed-Keeps (some p) =
      change_then-Keeps of_slot (set_node p) _ (λ vm. refl)
        (λ old. bind-Keeps of_slot (Reads-Keeps of_slot current-Reads) (λ vm.
          then-Keeps of_slot
            (when_do-Keeps of_slot _
              (Reads-Keeps of_slot (handle_hotplug_volumes-Reads c b.image vm p true)))
            (change_then-Keeps of_slot (follow_phase p) _ (λ now. refl)
              (λ now. update_hotplug_volume_status-Keeps c of_slot (λ v ss. refl) p))))

  pub reconcile_pending-Keeps : Keeps of_slot (reconcile_pending c)
  unfolding reconcile_pending
  reconcile_pending-Keeps =
      bind-Keeps of_slot (Reads-Keeps of_slot (generate_pod_name-Reads c))
        (λ name. change-Keeps of_slot _ (λ vm. refl))

  pub reconcile_scheduling-Keeps : Keeps of_slot (reconcile_scheduling c b)
  unfolding reconcile_scheduling
  reconcile_scheduling-Keeps =
      bind-Keeps of_slot (Reads-Keeps of_slot current-Reads)
        (λ vm. bind-Keeps of_slot (Reads-Keeps of_slot (get_vm_pod-Reads c _)) placed-Keeps)
