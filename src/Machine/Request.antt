-- ===== src/Machine/Request.antt =====
-- `VMReconciler.Reconcile` of pkg/controller/vm_controller.go: a run of `reconcile`, the update of the
-- status, and the result for the work queue.
use virtink.Prelude.{Option, none, some, List, [], ◌⊎◌, inl, inr}
use virtink.Api.{Kube, VirtualMachine}
use virtink.Client.{
  GetResult, found, not_found, failed, UpdateError, conflict, other, ReconcileResult, done, requeue,
  requeue_after, error,
}
use virtink.Machine.Monad.{
  Cluster, State, Outcome, returned, raised, Call, requeue_later, fails_with, panics,
}
use virtink.Machine.Cleanup.{gc_vm_pods}
use virtink.Machine.Build.Draft.{Builder}
use virtink.Machine.Reconcile.Ended.{reconcile}

-- What a request leads to: a result, and the machine whose status was sent to the server, if one was. A
-- panic ends the run before.
pub data Handled (K : Kube) : Type 0 where
  answered : ReconcileResult → Option (VirtualMachine K) → List (Call K) → Handled K
  panicked : List (Call K) → Handled K

module _ {K : Kube} (c : Cluster K) (b : Builder K) where
  abbrev pub after_gc : VirtualMachine K → Outcome K (Unit {0}) → Handled K
  after_gc vm (returned u s) = answered done (some vm) s.calls
  after_gc vm (raised e s) = answered (error "GC VM Pods") (some vm) s.calls

  unfoldable pub collect : VirtualMachine K → VirtualMachine K → List (Call K) → Handled K
  unfolding gc_vm_pods
  collect sent vm calls = after_gc sent (gc_vm_pods c vm (record { vm = vm; calls = calls }))

  unfoldable pub after_update : State K → UpdateError ⊎ VirtualMachine K → Handled K
  unfolding collect
  after_update s (inr vm) = collect s.vm vm s.calls
  after_update s (inl conflict) = answered requeue (some s.vm) s.calls
  after_update s (inl (other e)) = answered (error "update VM status") (some s.vm) s.calls

  -- `update_status` is the answer to the update of the status, with the machine as the server has it. It
  -- is sent after every run: the code compares the status with a pointer to a status, which are never
  -- deeply equal.
  unfoldable pub conclude :
      (VirtualMachine K → UpdateError ⊎ VirtualMachine K) → Outcome K (Unit {0}) → Handled K
  unfolding after_update
  conclude update_status (returned u s) = after_update s (update_status s.vm)
  conclude update_status (raised (requeue_later n) s) =
      answered (requeue_after n) (some s.vm) s.calls
  conclude update_status (raised (fails_with e) s) = answered (error e) (some s.vm) s.calls
  conclude update_status (raised panics s) = panicked s.calls

  -- The machine that a `Get` gives is a copy of the one in the cache.
  unfoldable pub handle_request :
      (VirtualMachine K → UpdateError ⊎ VirtualMachine K) → GetResult (VirtualMachine K) → Handled K
  unfolding reconcile conclude
  handle_request update_status (found vm) =
      conclude update_status (reconcile c b (record { vm = vm; calls = [] }))
  handle_request update_status not_found = answered done none []
  handle_request update_status (failed e) = answered (error e) none []
