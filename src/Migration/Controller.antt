-- ===== src/Migration/Controller.antt =====
-- The migration controller, pkg/controller/vmm_controller.go. A reconciliation reads the virtual
-- machine, may update its status, and returns the migration with its new status.
use virtink.Prelude.{Bool, not, ◌||◌, if◌then◌else◌, String, str_eq, Option, none, some}
use virtink.Api.{
  Kube, VirtualMachine, VirtualMachineMigration, VirtualMachineMigrationPhase,
  VirtualMachineStatusMigration, migration_phase_eq, time_is_zero,
}
use virtink.Client.{
  GetResult, found, not_found, failed, UpdateError, conflict, other, ReconcileResult, done, requeue,
  error,
}
use virtink.Prelude.Int.{pos}

-- The migration as `reconcile` leaves it, the status update sent for the virtual machine (whether
-- or not it was taken), and the error returned.
pub record Outcome (K : Kube) : Type 0 where
  pub migration : VirtualMachineMigration
  pub vm_update : Option (VirtualMachine K)
  pub failure : Option String

abbrev pub fresh_migration : String → VirtualMachineStatusMigration
fresh_migration uid = record {
  uid = uid;
  phase = VirtualMachineMigrationPhase.unset;
  target_node_name = "";
  target_node_ip = "";
  target_node_port = pos 0;
  target_vm_pod_name = "";
  target_vm_pod_uid = "";
  target_volume_pod_uid = "";
}

abbrev pub is_terminal : VirtualMachineMigrationPhase → Bool
is_terminal p =
    migration_phase_eq p VirtualMachineMigrationPhase.succeeded
    || migration_phase_eq p VirtualMachineMigrationPhase.failed

abbrev pub set_phase :
    VirtualMachineMigration → VirtualMachineMigrationPhase → VirtualMachineMigration
set_phase m p = record m { status = record (m.status) { phase = p } }

abbrev copy_target :
    VirtualMachineMigration → VirtualMachineStatusMigration → VirtualMachineMigration
copy_target m g =
    if str_eq g.target_node_name ""
    then m
    else record m { status = record (m.status) { target_node_name = g.target_node_name } }

module _ {K : Kube} where
  abbrev pub set_slot : VirtualMachine K → Option VirtualMachineStatusMigration → VirtualMachine K
  set_slot vm g = record vm { status = record (vm.status) { migration = g } }

  abbrev unchanged : VirtualMachineMigration → Outcome K
  unchanged m = record { migration = m; vm_update = none; failure = none }

  -- A finished migration gives the virtual machine back, if it still holds it.
  release :
      (VirtualMachine K → Option UpdateError)
      → VirtualMachineMigration
      → Option (VirtualMachine K)
      → Outcome K
  release update m none = unchanged m
  release update m (some vm) = elim vm.status.migration [
    | none ↦ unchanged m
    | some g ↦
        if not (time_is_zero vm.meta.deletion_timestamp) || not (str_eq g.uid m.meta.uid)
        then unchanged m
        else let vm' = set_slot vm none in
          record {
            migration = m;
            vm_update = some vm';
            failure = elim (update vm') [ none ↦ none | some _ ↦ some "reset vm migration status" ];
          }
  ]

  abbrev fail : VirtualMachineMigration → Outcome K
  fail m = unchanged (set_phase m VirtualMachineMigrationPhase.failed)

  -- A migration that is not finished takes a free machine, mirrors the progress of its own, and
  -- fails if the machine is gone or held by another.
  advance :
      (VirtualMachine K → Option UpdateError)
      → VirtualMachineMigration
      → Option (VirtualMachine K)
      → Outcome K
  advance update m none = fail m
  advance update m (some vm) =
      if not (time_is_zero vm.meta.deletion_timestamp) then fail m else elim vm.status.migration [
        | none ↦
            let vm' = set_slot vm (some (fresh_migration m.meta.uid)) in
            elim (update vm') [
              | some _ ↦ record {
                migration = m;
                vm_update = some vm';
                failure = some "set VM migration status";
              }
              | none ↦ record {
                migration = record m {
                  status = record (m.status) { source_node_name = vm.status.node_name };
                };
                vm_update = some vm';
                failure = none;
              }
            ]
        | some g ↦
            if str_eq g.uid m.meta.uid
            then unchanged (copy_target (set_phase m g.phase) g)
            else fail m
      ]

  dispatch :
      (VirtualMachine K → Option UpdateError)
      → VirtualMachineMigration
      → Option (VirtualMachine K)
      → Outcome K
  unfolding release advance
  dispatch update m vm =
      if is_terminal m.status.phase then release update m vm else advance update m vm

  -- `reconcile`: `get` reads the virtual machine by namespace and name, `update` is the answer to a
  -- status update of it.
  unfoldable pub reconcile :
      (String → String → GetResult (VirtualMachine K))
      → (VirtualMachine K → Option UpdateError)
      → VirtualMachineMigration
      → Outcome K
  unfolding dispatch
  reconcile get update m =
      if not (time_is_zero m.meta.deletion_timestamp)
      then unchanged m
      else elim (get m.meta.namespace m.spec.vm_name) [
        | failed e ↦ record { migration = m; vm_update = none; failure = some "get vm" }
        | not_found ↦ dispatch update m none
        | found vm ↦ dispatch update m (some vm)
      ]

  -- `Reconcile`. Its test `reflect.DeepEqual(vmm.Status, status)` compares a struct with a pointer,
  -- so it never holds, and the status is written on every run that returns no error. The second
  -- part is the migration whose status is sent to the server.
  unfoldable pub reconcile_request :
      GetResult VirtualMachineMigration
      → (String → String → GetResult (VirtualMachine K))
      → (VirtualMachine K → Option UpdateError)
      → (VirtualMachineMigration → Option UpdateError)
      → ReconcileResult × Option VirtualMachineMigration
  unfolding reconcile
  reconcile_request not_found get update update_migration = (done, none)
  reconcile_request (failed e) get update update_migration = (error e, none)
  reconcile_request (found m) get update update_migration =
      let r = reconcile get update m in
      elim r.failure [
        | some e ↦ (error e, none)
        | none ↦ elim (update_migration r.migration) [
          | none ↦ (done, some (r.migration))
          | some conflict ↦ (requeue, some (r.migration))
          | some (other e) ↦ (error "update VMM status", some (r.migration))
        ]
      ]
