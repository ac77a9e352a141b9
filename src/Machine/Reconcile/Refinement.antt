-- ===== src/Machine/Reconcile/Refinement.antt =====
-- `reconcile` of pkg/controller/vm_controller.go as a whole: its moves of the phase, and what it does with
-- the slot that a migration holds.
use virtink.Prelude.{
  ◌≡◌, refl, sym, subst, ap, String, Option, none, some, is_some, List, Bool, true, false,
  if◌then◌else◌,
}
use virtink.Api.{Kube, VirtualMachine, VirtualMachineStatus, VirtualMachinePhase}
use virtink.Machine.Monad.{Cluster, Call, State, final, ◌>>=◌, ◌>>◌, current, put, call, raise}
use virtink.Machine.Reads.{current-Reads, pure-Reads}
use virtink.Machine.Keeps.{Keeps, Reads-Keeps, bind-Keeps, then-Keeps, if-Keeps}
use virtink.Machine.Leads.{Leads, Keeps-Leads, later-Leads, if-Leads}
use virtink.Machine.Cleanup.{delete_all_vm_pods-Reads}
use virtink.Machine.Build.Draft.{Builder}
use virtink.Machine.Reconcile.Ended.{
  set_finalizers, may_release, update, update_result, change_finalizers, release_if, release,
  protect, reconcile_phase, unless_released, reconcile_deleted, reconcile_vm, is_protected,
}

-- An update of the object leaves its status alone: the status is a subresource.
abbrev pub UpdateKeepsStatus : {K : Kube} → Cluster K → Type 0
UpdateKeepsStatus {K} c =
    (calls : List (Call K)) (vm vm' : VirtualMachine K)
    → c.update calls vm ≡ some vm'
    → vm'.status ≡ vm.status

module _ {κ} {K : Kube} {X : Type κ} (c : Cluster K) (g : VirtualMachineStatus → X)
    (kept : UpdateKeepsStatus c) where
  abbrev of_status : VirtualMachine K → X
  of_status vm = g vm.status

  update_result-run :
      (o : Option (VirtualMachine K)) (x : X) (s : State K)
      → ((vm : VirtualMachine K) → o ≡ some vm → of_status vm ≡ x)
      → of_status s.vm ≡ x
      → of_status ((final (update_result c o s)).vm) ≡ x
  unfolding update_result raise put
  update_result-run none x s h e = e
  update_result-run (some vm) x s h e = h vm refl

  change_finalizers-Keeps :
      (k : List String → List String) → Keeps of_status (change_finalizers c k)
  unfolding change_finalizers update ◌>>=◌ ◌>>◌ current put call
  change_finalizers-Keeps k = record {
    run = λ s.
        update_result-run (c.update s.calls (set_finalizers (k s.vm.meta.finalizers) s.vm)) _ _
          (λ vm e. ap g (kept _ _ vm e)) refl;
  }

  release_if-Keeps : (gone : Bool) → Keeps of_status (release_if c gone)
  unfolding release_if
  release_if-Keeps false = Reads-Keeps of_status (pure-Reads false)
  release_if-Keeps true =
      then-Keeps of_status (change_finalizers-Keeps _) (Reads-Keeps of_status (pure-Reads true))

  pub release-Keeps : Keeps of_status (release c)
  unfolding release
  release-Keeps = bind-Keeps of_status (Reads-Keeps of_status current-Reads) (λ vm.
      bind-Keeps of_status (Reads-Keeps of_status (delete_all_vm_pods-Reads c vm)) release_if-Keeps)

  pub protect-Keeps : Keeps of_status (protect c)
  unfolding protect
  protect-Keeps = change_finalizers-Keeps _

-- A relation that holds along the branch of each phase holds along the whole.
module _ {κ μ} {K : Kube} {X : Type κ} (c : Cluster K) (b : Builder K)
    (g : VirtualMachineStatus → X) (R : X → X → Type μ) (reflexive : (x : X) → R x x)
    (kept : UpdateKeepsStatus c) where
  abbrev seen : VirtualMachine K → X
  seen vm = g vm.status

  -- The branch of a phase, for a machine in a state of which `P` holds.
  module _ (P : X → Type 0) (phase : VirtualMachinePhase)
      (branch : Leads seen (λ x y. P x → R x y) (reconcile_phase c b phase)) where
    unless_released-Leads :
        (released : Bool) → Leads seen (λ x y. P x → R x y) (unless_released c b phase released)
    unless_released-Leads true =
        Keeps-Leads seen _ (λ x h. reflexive x) (Reads-Keeps seen (pure-Reads tt))
    unless_released-Leads false = branch

    deleted-Leads : Leads seen (λ x y. P x → R x y) (reconcile_deleted c b phase)
    unfolding reconcile_deleted
    deleted-Leads =
        later-Leads seen _ (λ x h. reflexive x)
          (if-Keeps seen (may_release phase) (release-Keeps c g kept)
            (Reads-Keeps seen (pure-Reads false)))
          unless_released-Leads

    pub whole-Leads :
        (vm : VirtualMachine K)
        → vm.status.phase ≡ phase
        → Leads seen (λ x y. P x → R x y) (reconcile_vm c b vm)
    unfolding reconcile_vm
    whole-Leads vm e =
        subst
          (λ p.
            Leads seen (λ x y. P x → R x y)
              (if is_some vm.meta.deletion_timestamp
                then reconcile_deleted c b p
                else (if is_protected vm then reconcile_phase c b p else protect c)))
          (sym e)
          (if-Leads seen _ (λ x h. reflexive x) (is_some vm.meta.deletion_timestamp) deleted-Leads
            (if-Leads seen _ (λ x h. reflexive x) (is_protected vm) branch
              (Keeps-Leads seen _ (λ x h. reflexive x) (protect-Keeps c g kept))))
