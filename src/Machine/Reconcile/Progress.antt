-- ===== src/Machine/Reconcile/Progress.antt =====
-- A machine that should run gets on: two runs of `reconcile` in pkg/controller/vm_controller.go.
use virtink.Prelude.{
  ◌≡◌, refl, sym, subst, ap, ◌∙◌, ℕ, Bool, true, false, Option, none, some, is_some, List, [], ◌∷◌,
  if◌then◌else◌,
}
use virtink.Api.{Kube, VirtualMachinePhase, Pod}
use virtink.Machine.Monad.{
  Cluster, State, final, M, Call, and_then, ◌>>=◌, ◌>>◌, current, put, call, pure, when_do,
  list_vm_pods,
}
use virtink.Machine.Build.Draft.{Builder}
use virtink.Machine.Cleanup.{listed, list_pods_of, delete_listed, delete_all_vm_pods}
use virtink.Machine.Reconcile.Scheduling.{generate_pod_name, reconcile_pending}
use virtink.Machine.Reconcile.Ended.{
  is_protected, restarted, restart, reconcile_ended, reconcile_phase, reconcile_vm, reconcile,
}
use virtink.Machine.Reconcile.Lifecycle.{IsIdle}
use virtink.Machine.Reconcile.Restart.{Starts, restarted-IsRestarted}

third {ℓ} :
    {A : Type ℓ} (d : Option ℕ) (q : Bool) (x y z : A)
    → d ≡ none
    → q ≡ true
    → (if is_some d then x else if q then y else z) ≡ y
third none true x y z h k = refl
third none false x y z h k = cc
third (some t) q x y z h k = cc

module _ {K : Kube} (c : Cluster K) (b : Builder K) where
  -- A machine that is neither being deleted nor without its finalizer.
  reconcile-phase :
      (s : State K)
      → s.vm.meta.deletion_timestamp ≡ none
      → is_protected s.vm ≡ true
      → reconcile c b s ≡ reconcile_phase c b s.vm.status.phase s
  unfolding reconcile reconcile_vm ◌>>=◌ current
  reconcile-phase s h k =
      ap {A = M K (Unit {0})} (λ m. m s)
        (third s.vm.meta.deletion_timestamp (is_protected s.vm) _ _ _ h k)

  listed-restarted :
      (o : Option (List (Pod K))) (s : State K)
      → o ≡ some []
      → (final (
          and_then
            (and_then (listed c o s) (delete_listed c))
            (λ gone. when_do gone (restart c)))).vm
        ≡ restarted s.vm
  unfolding listed delete_listed pure when_do restart ◌>>=◌ current put
  listed-restarted o s h =
      subst
        (λ p.
          (final (
            and_then (and_then (listed c p s) (delete_listed c))
              (λ gone. when_do gone (restart c)))).vm
          ≡ restarted s.vm)
        (sym h) refl

  reconcile_ended-restarted :
      (s : State K)
      → c.vm_pods s.calls s.vm.meta.uid ≡ some []
      → (final (reconcile_ended c s)).vm ≡ restarted s.vm
  unfolding reconcile_ended delete_all_vm_pods list_pods_of ◌>>=◌ current call
  reconcile_ended-restarted s h =
      listed-restarted (c.vm_pods s.calls s.vm.meta.uid)
        (record s { calls = list_vm_pods s.vm.meta.uid ∷ s.calls }) h

  idle-phase :
      (p : VirtualMachinePhase) (s : State K)
      → IsIdle p
      → reconcile_phase c b p s ≡ reconcile_ended c s
  unfolding reconcile_phase
  idle-phase VirtualMachinePhase.unset s IsIdle.fresh = refl
  idle-phase VirtualMachinePhase.succeeded s IsIdle.succeeded = refl
  idle-phase VirtualMachinePhase.failed s IsIdle.failed = refl
  idle-phase VirtualMachinePhase.pending s i = elim i [ ]
  idle-phase VirtualMachinePhase.scheduling s i = elim i [ ]
  idle-phase VirtualMachinePhase.scheduled s i = elim i [ ]
  idle-phase VirtualMachinePhase.running s i = elim i [ ]
  idle-phase VirtualMachinePhase.unknown s i = elim i [ ]

  pending-phase :
      (p : VirtualMachinePhase) (s : State K)
      → p ≡ VirtualMachinePhase.pending
      → (final (reconcile_phase c b p s)).vm.status.phase ≡ VirtualMachinePhase.scheduling
  unfolding reconcile_phase reconcile_pending generate_pod_name ◌>>=◌ ◌>>◌ current call pure put
  pending-phase p s h =
      subst
        (λ q. (final (reconcile_phase c b q s)).vm.status.phase ≡ VirtualMachinePhase.scheduling)
        (sym h) refl

  reconcile-restarted :
      (s : State K)
      → IsIdle s.vm.status.phase
      → s.vm.meta.deletion_timestamp ≡ none
      → is_protected s.vm ≡ true
      → c.vm_pods s.calls s.vm.meta.uid ≡ some []
      → (final (reconcile c b s)).vm ≡ restarted s.vm
  reconcile-restarted s i h k g =
      ap (λ o. (final o).vm) (reconcile-phase s h k ∙ idle-phase s.vm.status.phase s i)
      ∙ reconcile_ended-restarted s g

  -- A machine that is new or has ended, has its finalizer, is not being deleted, has no pod and is to run
  -- by its policy is in phase Scheduling after two runs, whatever the cluster answers in the second one.
  pub reconcile-scheduling :
      (s : State K) (calls : List (Call K))
      → IsIdle s.vm.status.phase
      → s.vm.meta.deletion_timestamp ≡ none
      → is_protected s.vm ≡ true
      → c.vm_pods s.calls s.vm.meta.uid ≡ some []
      → Starts s.vm.spec.run_policy s.vm.status.phase s.vm.status.power_action
      → (final (
          reconcile c b
            (record { vm = (final (reconcile c b s)).vm; calls = calls }))).vm.status.phase
        ≡ VirtualMachinePhase.scheduling
  reconcile-scheduling s calls i h k g starts =
      subst
        (λ v.
          (final (reconcile c b (record { vm = v; calls = calls }))).vm.status.phase
          ≡ VirtualMachinePhase.scheduling)
        (sym (reconcile-restarted s i h k g))
        (ap (λ o. (final o).vm.status.phase)
            (reconcile-phase (record { vm = restarted s.vm; calls = calls }) h k)
          ∙ pending-phase _ _ ((restarted-IsRestarted s.vm).starts starts))
