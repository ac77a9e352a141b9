-- ===== src/ReplicaSet/Request.antt =====
-- `Reconcile` of pkg/controller/vmrs_controller.go: a run, and what is written of its status. A panic is
-- `none`.
use virtink.Prelude.{
  ◌≡◌, ◌↔◌, true, ◌&&◌, Bool-cases, inl, inr, Bool, Option, none, some, String, if◌then◌else◌,
  arith, Eq, ℕ, List,
}
use virtink.Prelude.Int.{eqb_ℤ, eqb_ℤ_iff}
use virtink.Api.{Kube, Condition, VirtualMachine}
use virtink.Client.{
  GetResult, found, not_found, failed, UpdateError, conflict, other, ReconcileResult, done, requeue,
  error,
}
use virtink.Expectations.Tracking.{Stores, Expectations, delete_expectations}
use virtink.ReplicaSet.Objects.{Selectors, VmrsCondition, VmrsStatus, VirtualMachineReplicaSet}
use virtink.ReplicaSet.Scale.{Calls, Pass}
use virtink.ReplicaSet.Controller.{Run, list_failed, panicked, finished, reconcile}

-- How a request ends: the result, the status that is sent to the server, and the expectations.
pub record Answer (P : Stores) : Type 0 where
  pub result : ReconcileResult
  pub sent : Option VmrsStatus
  pub expectations : Expectations P

-- The answer to a status update; a run that finishes has no error of its own.
abbrev update_result : Option UpdateError → ReconcileResult
update_result none = done
update_result (some conflict) = requeue
update_result (some (other e)) = error "update VMReplicaSet status"

-- The comparison of the old status with the new one: field by field, and reflect.DeepEqual on the
-- conditions.
unfoldable pub same_status : Eq (List VmrsCondition) → VmrsStatus → VmrsStatus → Bool
same_status conditions_eq old new =
    eqb_ℤ old.replicas new.replicas
    && eqb_ℤ old.ready_replicas new.ready_replicas
    && eqb_ℤ old.available_replicas new.available_replicas
    && eqb_ℤ old.observed_generation new.observed_generation
    && conditions_eq.beq old.conditions new.conditions

same_status_iff :
    (conditions_eq : Eq (List VmrsCondition)) (old new : VmrsStatus)
    → (same_status conditions_eq old new ≡ true) ↔ (old ≡ new)
unfolding same_status
same_status_iff conditions_eq old new = ground (
  arith,
  eqb_ℤ_iff old.replicas new.replicas,
  eqb_ℤ_iff old.ready_replicas new.ready_replicas,
  eqb_ℤ_iff old.available_replicas new.available_replicas,
  eqb_ℤ_iff old.observed_generation new.observed_generation,
  conditions_eq.beq_iff old.conditions new.conditions,
)

module _ {P : Stores} {K : Kube} {L : Selectors} (conditions_eq : Eq (List VmrsCondition)) where
  -- The comparison of a pointer with a struct that follows never holds. A run that could not list its machines leaves
  -- the status as it was, and its error is lost.
  conclude_run :
      VirtualMachineReplicaSet K L
      → (VmrsStatus → Option UpdateError)
      → Expectations P
      → Run P K L
      → Option (Answer P)
  unfolding same_status
  conclude_run vmrs update u list_failed =
      some (record { result = done; sent = none; expectations = u })
  conclude_run vmrs update u panicked = none
  conclude_run vmrs update u (finished vmrs' s) =
      if same_status conditions_eq vmrs.status vmrs'.status
      then some (record { result = done; sent = none; expectations = s.expectations })
      else some (record {
        result = update_result (update (vmrs'.status));
        sent = some (vmrs'.status);
        expectations = s.expectations;
      })

  -- `key` is the name of the request. Every error of the read drops the expectations.
  unfoldable pub reconcile_set :
      Calls K
      → (List Condition → String → Bool)
      → ℕ
      → String
      → GetResult (VirtualMachineReplicaSet K L)
      → Option (List (VirtualMachine K))
      → (VmrsStatus → Option UpdateError)
      → Expectations P
      → Option (Answer P)
  unfolding conclude_run reconcile
  reconcile_set c true_condition now key not_found listed update u =
      some (record { result = done; sent = none; expectations = delete_expectations key u })
  reconcile_set c true_condition now key (failed e) listed update u =
      some (record { result = error e; sent = none; expectations = delete_expectations key u })
  reconcile_set c true_condition now key (found vmrs) listed update u =
      conclude_run vmrs update u (reconcile c true_condition now vmrs listed u)

  -- A request for a set that is found reports no error when its machines cannot be listed, writes nothing
  -- then, and leaves the expectations as they are.
  pub reconcile_set-loses_error :
      (c : Calls K) (true_condition : List Condition → String → Bool) (now : ℕ) (key : String)
      (vmrs : VirtualMachineReplicaSet K L) (update : VmrsStatus → Option UpdateError)
      (u : Expectations P)
      → reconcile_set c true_condition now key (found vmrs) none update u
        ≡ some (record { result = done; sent = none; expectations = u })
  unfolding reconcile_set
  reconcile_set-loses_error c true_condition now key vmrs update u = ground arith

  conclude_run-sends :
      (vmrs vmrs' : VirtualMachineReplicaSet K L) (update : VmrsStatus → Option UpdateError)
      (u : Expectations P) (p : Pass P)
      → let a = conclude_run vmrs update u (finished vmrs' p) in
        ((a ≡ some (record { result = done; sent = none; expectations = p.expectations }))
          ↔ (vmrs.status ≡ vmrs'.status))
        × ((a
              ≡ some (record {
                result = update_result (update (vmrs'.status));
                sent = some (vmrs'.status);
                expectations = p.expectations;
              }))
            ↔ (¬ (vmrs.status ≡ vmrs'.status)))
  unfolding conclude_run
  conclude_run-sends vmrs vmrs' update u p =
      let same = same_status_iff conditions_eq vmrs.status vmrs'.status in
      elim (Bool-cases (same_status conditions_eq vmrs.status vmrs'.status)) [
        | inl e ↦ ground arith
        | inr e ↦ ground arith
      ]

  -- When a run finishes, the request sends nothing and is done exactly if the status that was read equals
  -- the one that the run has computed. Exactly if it differs it sends the computed status, and its result is
  -- that of the update: done, tried again on a conflict, or an error. The expectations are those of the run
  -- in both cases.
  pub reconcile_set-sends :
      (c : Calls K) (true_condition : List Condition → String → Bool) (now : ℕ) (key : String)
      (vmrs vmrs' : VirtualMachineReplicaSet K L) (listed : Option (List (VirtualMachine K)))
      (update : VmrsStatus → Option UpdateError) (u : Expectations P) (p : Pass P)
      → reconcile c true_condition now vmrs listed u ≡ finished vmrs' p
      → let a = reconcile_set c true_condition now key (found vmrs) listed update u in
        ((a ≡ some (record { result = done; sent = none; expectations = p.expectations }))
          ↔ (vmrs.status ≡ vmrs'.status))
        × ((a
              ≡ some (record {
                result = update_result (update (vmrs'.status));
                sent = some (vmrs'.status);
                expectations = p.expectations;
              }))
            ↔ (¬ (vmrs.status ≡ vmrs'.status)))
  unfolding reconcile_set
  reconcile_set-sends c true_condition now key vmrs vmrs' listed update u p h =
      rw h (conclude_run-sends vmrs vmrs' update u p)
