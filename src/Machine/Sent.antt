-- ===== src/Machine/Sent.antt =====
-- What a request to the machine's controller sends to the server: `VMReconciler.Reconcile` of
-- pkg/controller/vm_controller.go.
use virtink.Prelude.{◌⊎◌, inl, inr, none, some, []}
use virtink.Api.{Kube, VirtualMachine}
use virtink.Client.{UpdateError, found, conflict, other}
use virtink.Machine.Monad.{
  Cluster, State, Outcome, returned, raised, final, requeue_later, fails_with, panics,
}
use virtink.Machine.Build.Draft.{Builder}
use virtink.Machine.Reconcile.Lifecycle.{Lifecycle}
use virtink.Machine.Reconcile.Refinement.{UpdateKeepsStatus}
use virtink.Machine.Reconcile.Theorems.{reconcile-Lifecycle}
use virtink.Machine.Request.{
  Handled, answered, panicked, after_gc, after_update, collect, conclude, handle_request,
}

-- The machine whose status a request sends is one move away, and one is sent unless the request panics.
abbrev pub SendsMove : {K : Kube} → VirtualMachine K → Handled K → Type 0
SendsMove vm (answered r none calls) = ⊥
SendsMove vm (answered r (some sent) calls) = Lifecycle vm.status.phase sent.status.phase
SendsMove vm (panicked calls) = Unit

module _ {K : Kube} (c : Cluster K) (b : Builder K) where
  after_gc-SendsMove :
      (vm sent : VirtualMachine K) (o : Outcome K (Unit {0}))
      → Lifecycle vm.status.phase sent.status.phase
      → SendsMove vm (after_gc c b sent o)
  after_gc-SendsMove vm sent (returned u s) h = h
  after_gc-SendsMove vm sent (raised e s) h = h

  after_update-SendsMove :
      (vm : VirtualMachine K) (s : State K) (answer : UpdateError ⊎ VirtualMachine K)
      → Lifecycle vm.status.phase s.vm.status.phase
      → SendsMove vm (after_update c b s answer)
  unfolding after_update collect
  after_update-SendsMove vm s (inr stored) h = after_gc-SendsMove vm s.vm _ h
  after_update-SendsMove vm s (inl conflict) h = h
  after_update-SendsMove vm s (inl (other e)) h = h

  conclude-SendsMove :
      (update_status : VirtualMachine K → UpdateError ⊎ VirtualMachine K) (vm : VirtualMachine K)
      (o : Outcome K (Unit {0}))
      → Lifecycle vm.status.phase (final o).vm.status.phase
      → SendsMove vm (conclude c b update_status o)
  unfolding conclude
  conclude-SendsMove update_status vm (returned u s) h =
      after_update-SendsMove vm s (update_status s.vm) h
  conclude-SendsMove update_status vm (raised (requeue_later n) s) h = h
  conclude-SendsMove update_status vm (raised (fails_with e) s) h = h
  conclude-SendsMove update_status vm (raised panics s) h = tt

  -- Where an update of the object leaves its status alone, every request for a machine that is found sends
  -- a status to the server, unless it panics, and the phase in it is at most one move of the life of a
  -- machine away.
  pub handle_request-SendsMove :
      UpdateKeepsStatus c
      → (update_status : VirtualMachine K → UpdateError ⊎ VirtualMachine K) (vm : VirtualMachine K)
      → SendsMove vm (handle_request c b update_status (found vm))
  unfolding handle_request
  handle_request-SendsMove kept update_status vm =
      conclude-SendsMove update_status vm _
        (reconcile-Lifecycle c b kept (record { vm = vm; calls = [] }))
