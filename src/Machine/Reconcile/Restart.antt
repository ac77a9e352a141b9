-- ===== src/Machine/Reconcile/Restart.antt =====
-- When a machine without a pod starts again: the last branch of `reconcile` in
-- pkg/controller/vm_controller.go.
use virtink.Prelude.{◌≡◌, ◌≢◌, ◌⊎◌, ◌↔◌, refl, Bool, true, false, none, arith, if◌then◌else◌}
use virtink.Api.{
  Kube, VirtualMachine, VirtualMachinePhase, phase_eq, VirtualMachinePowerAction, RunPolicy,
}
use virtink.Machine.Reconcile.Ended.{is_power_on, runs_again, restarted}

-- What starts a machine: its policy alone, a request to power it on, that it has never run, or its failure.
abbrev pub Starts : RunPolicy → VirtualMachinePhase → VirtualMachinePowerAction → Type 0
Starts p phase action =
    (p ≡ RunPolicy.always)
    ⊎ ((action ≡ VirtualMachinePowerAction.power_on)
        × ((p ≡ RunPolicy.rerun_on_failure) ⊎ ((p ≡ RunPolicy.once) ⊎ (p ≡ RunPolicy.manual))))
    ⊎ ((phase ≡ VirtualMachinePhase.unset)
        × ((p ≡ RunPolicy.rerun_on_failure) ⊎ (p ≡ RunPolicy.once)))
    ⊎ ((phase ≡ VirtualMachinePhase.failed) × (p ≡ RunPolicy.rerun_on_failure))

phase_eq-unset_iff :
    (p : VirtualMachinePhase)
    → (phase_eq p VirtualMachinePhase.unset ≡ true) ↔ (p ≡ VirtualMachinePhase.unset)
phase_eq-unset_iff VirtualMachinePhase.unset = ground arith
phase_eq-unset_iff VirtualMachinePhase.pending = ground arith
phase_eq-unset_iff VirtualMachinePhase.scheduling = ground arith
phase_eq-unset_iff VirtualMachinePhase.scheduled = ground arith
phase_eq-unset_iff VirtualMachinePhase.running = ground arith
phase_eq-unset_iff VirtualMachinePhase.succeeded = ground arith
phase_eq-unset_iff VirtualMachinePhase.failed = ground arith
phase_eq-unset_iff VirtualMachinePhase.unknown = ground arith

phase_eq-failed_iff :
    (p : VirtualMachinePhase)
    → (phase_eq p VirtualMachinePhase.failed ≡ true) ↔ (p ≡ VirtualMachinePhase.failed)
phase_eq-failed_iff VirtualMachinePhase.unset = ground arith
phase_eq-failed_iff VirtualMachinePhase.pending = ground arith
phase_eq-failed_iff VirtualMachinePhase.scheduling = ground arith
phase_eq-failed_iff VirtualMachinePhase.scheduled = ground arith
phase_eq-failed_iff VirtualMachinePhase.running = ground arith
phase_eq-failed_iff VirtualMachinePhase.succeeded = ground arith
phase_eq-failed_iff VirtualMachinePhase.failed = ground arith
phase_eq-failed_iff VirtualMachinePhase.unknown = ground arith

is_power_on_iff :
    (a : VirtualMachinePowerAction)
    → (is_power_on a ≡ true) ↔ (a ≡ VirtualMachinePowerAction.power_on)
is_power_on_iff VirtualMachinePowerAction.unset = ground arith
is_power_on_iff VirtualMachinePowerAction.power_on = ground arith
is_power_on_iff VirtualMachinePowerAction.power_off = ground arith
is_power_on_iff VirtualMachinePowerAction.shutdown = ground arith
is_power_on_iff VirtualMachinePowerAction.reset = ground arith
is_power_on_iff VirtualMachinePowerAction.reboot = ground arith
is_power_on_iff VirtualMachinePowerAction.pause = ground arith
is_power_on_iff VirtualMachinePowerAction.resume = ground arith

runs_again_iff :
    (p : RunPolicy) (phase : VirtualMachinePhase) (action : VirtualMachinePowerAction)
    → (runs_again p phase action ≡ true) ↔ Starts p phase action
unfolding runs_again
runs_again_iff RunPolicy.always phase action = ground arith
runs_again_iff RunPolicy.rerun_on_failure phase action =
    ground (arith, phase_eq-unset_iff phase, phase_eq-failed_iff phase, is_power_on_iff action)
runs_again_iff RunPolicy.once phase action =
    ground (arith, phase_eq-unset_iff phase, is_power_on_iff action)
runs_again_iff RunPolicy.manual phase action = ground (arith, is_power_on_iff action)
runs_again_iff RunPolicy.unset phase action = ground arith
runs_again_iff RunPolicy.halted phase action = ground arith

-- The machine after a run: as it was, or with a cleared status, whose phase is pending if it starts.
pub record IsRestarted {K : Kube} (before after : VirtualMachine K) : Type 0 where
  pub same_spec : after.spec ≡ before.spec
  pub no_migration : after.status.migration ≡ none
  pub starts :
      Starts before.spec.run_policy before.status.phase before.status.power_action
      → after.status.phase ≡ VirtualMachinePhase.pending
  pub rests :
      ¬ (Starts before.spec.run_policy before.status.phase before.status.power_action)
      → after.status.phase ≡ before.status.phase

module _ {K : Kube} where
  pub restarted-IsRestarted : (vm : VirtualMachine K) → IsRestarted vm (restarted vm)
  restarted-IsRestarted vm = record {
    same_spec = refl;
    no_migration = refl;
    starts = λ h.
        chosen_if (runs_again vm.spec.run_policy vm.status.phase vm.status.power_action)
          vm.status.phase ((policy vm).1 h);
    rests = λ h.
        other_if (runs_again vm.spec.run_policy vm.status.phase vm.status.power_action)
          vm.status.phase (λ e. h ((policy vm).0 e));
  }
    where
      policy :
          (vm : VirtualMachine K)
          → (runs_again vm.spec.run_policy vm.status.phase vm.status.power_action ≡ true)
            ↔ Starts vm.spec.run_policy vm.status.phase vm.status.power_action
      policy vm = runs_again_iff vm.spec.run_policy vm.status.phase vm.status.power_action

      chosen_if :
          (b : Bool) (p : VirtualMachinePhase)
          → b ≡ true
          → (if b then VirtualMachinePhase.pending else p) ≡ VirtualMachinePhase.pending
      chosen_if true p e = refl
      chosen_if false p e = cc

      other_if :
          (b : Bool) (p : VirtualMachinePhase)
          → b ≢ true
          → (if b then VirtualMachinePhase.pending else p) ≡ p
      other_if true p e = absurd (e refl)
      other_if false p e = refl
