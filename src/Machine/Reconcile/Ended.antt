-- ===== src/Machine/Reconcile/Ended.antt =====
-- The finalizer, and the phases in which no pod runs, in `reconcile` of pkg/controller/vm_controller.go;
-- and `reconcile` as a whole.
use virtink.Prelude.{
  Bool, true, false, not, ◌||◌, String, str_eq, Option, none, some, is_some, List, [], ◌∷◌, ◌++◌,
  select, if◌then◌else◌,
}
use virtink.Prelude.Map.{contains}
use virtink.Api.{
  Kube, VirtualMachine, VirtualMachineStatus, VirtualMachinePhase, phase_eq,
  VirtualMachinePowerAction, RunPolicy,
}
use virtink.Machine.Monad.{
  Cluster, M, ◌>>=◌, ◌>>◌, pure, raise, current, put, call, when_do, update_vm, fails_with,
}
use virtink.Machine.Cleanup.{delete_all_vm_pods}
use virtink.Machine.Build.Draft.{Builder}
use virtink.Machine.Reconcile.Scheduling.{reconcile_pending, reconcile_scheduling}
use virtink.Machine.Reconcile.Running.{reconcile_running}

abbrev pub protection : String
protection = "virtink.io/vm-protection"

abbrev pub is_power_on : VirtualMachinePowerAction → Bool
is_power_on VirtualMachinePowerAction.power_on = true
is_power_on _ = false

-- Does the machine start again?
unfoldable pub runs_again : RunPolicy → VirtualMachinePhase → VirtualMachinePowerAction → Bool
runs_again RunPolicy.always phase action = true
runs_again RunPolicy.rerun_on_failure phase action =
    phase_eq phase VirtualMachinePhase.failed
    || phase_eq phase VirtualMachinePhase.unset
    || is_power_on action
runs_again RunPolicy.once phase action =
    phase_eq phase VirtualMachinePhase.unset || is_power_on action
runs_again RunPolicy.manual phase action = is_power_on action
runs_again RunPolicy.unset phase action = false
runs_again RunPolicy.halted phase action = false

abbrev pub status_at : VirtualMachinePhase → VirtualMachineStatus
status_at p = record {
  phase = p;
  vm_pod_name = "";
  vm_pod_uid = "";
  node_name = "";
  power_action = VirtualMachinePowerAction.unset;
  migration = none;
  conditions = [];
  volume_status = [];
}

-- The phases in which the machine may be released when it is deleted.
abbrev pub may_release : VirtualMachinePhase → Bool
may_release VirtualMachinePhase.unset = true
may_release VirtualMachinePhase.pending = true
may_release VirtualMachinePhase.scheduling = true
may_release VirtualMachinePhase.failed = true
may_release VirtualMachinePhase.succeeded = true
may_release VirtualMachinePhase.scheduled = false
may_release VirtualMachinePhase.running = false
may_release VirtualMachinePhase.unknown = false

module _ {K : Kube} where
  abbrev pub set_finalizers : List String → VirtualMachine K → VirtualMachine K
  set_finalizers fs vm = record vm { meta = record (vm.meta) { finalizers = fs } }

  abbrev pub is_protected : VirtualMachine K → Bool
  is_protected vm = contains vm.meta.finalizers protection

  abbrev pub restarted : VirtualMachine K → VirtualMachine K
  restarted vm = record vm {
    status = status_at (
        if runs_again vm.spec.run_policy vm.status.phase vm.status.power_action
        then VirtualMachinePhase.pending
        else vm.status.phase);
  }

module _ {K : Kube} (c : Cluster K) where
  -- The machine in memory becomes the one that the server answers with.
  unfoldable pub update_result : Option (VirtualMachine K) → M K (Unit {0})
  update_result none = raise (fails_with "update VM")
  update_result (some vm) = put vm

  unfoldable pub update : VirtualMachine K → M K (Unit {0})
  unfolding update_result
  update vm = do put vm; calls ← call (update_vm vm); update_result (c.update calls vm)

  unfoldable pub change_finalizers : (List String → List String) → M K (Unit {0})
  unfolding update
  change_finalizers g = do vm ← current; update (set_finalizers (g vm.meta.finalizers) vm)

  unfoldable pub restart : M K (Unit {0})
  unfolding runs_again
  restart = do vm ← current; put (restarted vm)

  unfoldable pub reconcile_ended : M K (Unit {0})
  unfolding delete_all_vm_pods restart
  reconcile_ended = do vm ← current; gone ← delete_all_vm_pods c vm; when_do gone restart

  -- True if the machine was released.
  unfoldable pub release_if : Bool → M K Bool
  unfolding change_finalizers
  release_if false = pure false
  release_if true = do
    change_finalizers (λ fs. select (λ f. not (str_eq f protection)) fs)
    pure true

  unfoldable pub release : M K Bool
  unfolding delete_all_vm_pods release_if
  release = do vm ← current; gone ← delete_all_vm_pods c vm; release_if gone

  unfoldable pub protect : M K (Unit {0})
  unfolding change_finalizers
  protect = change_finalizers (λ fs. fs ++ (protection ∷ []))

module _ {K : Kube} (c : Cluster K) (b : Builder K) where
  unfoldable pub reconcile_phase : VirtualMachinePhase → M K (Unit {0})
  unfolding reconcile_pending reconcile_scheduling reconcile_running reconcile_ended
  reconcile_phase VirtualMachinePhase.pending = reconcile_pending c
  reconcile_phase VirtualMachinePhase.scheduling = reconcile_scheduling c b
  reconcile_phase VirtualMachinePhase.scheduled = reconcile_scheduling c b
  reconcile_phase VirtualMachinePhase.running = reconcile_running c b
  reconcile_phase VirtualMachinePhase.unset = reconcile_ended c
  reconcile_phase VirtualMachinePhase.succeeded = reconcile_ended c
  reconcile_phase VirtualMachinePhase.failed = reconcile_ended c
  reconcile_phase VirtualMachinePhase.unknown = pure tt

  abbrev pub unless_released : VirtualMachinePhase → Bool → M K (Unit {0})
  unless_released phase true = pure tt
  unless_released phase false = reconcile_phase phase

  unfoldable pub reconcile_deleted : VirtualMachinePhase → M K (Unit {0})
  unfolding release reconcile_phase
  reconcile_deleted phase = do
    released ← if may_release phase then release c else pure false
    unless_released phase released

  unfoldable pub reconcile_vm : VirtualMachine K → M K (Unit {0})
  unfolding protect reconcile_phase reconcile_deleted
  reconcile_vm vm =
      if is_some vm.meta.deletion_timestamp
      then reconcile_deleted vm.status.phase
      else if is_protected vm
      then reconcile_phase vm.status.phase
      else protect c

  unfoldable pub reconcile : M K (Unit {0})
  unfolding reconcile_vm
  reconcile = do vm ← current; reconcile_vm vm
