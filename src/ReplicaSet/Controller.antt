-- ===== src/ReplicaSet/Controller.antt =====
-- One run of the controller of replica sets: `reconcile` and `getControlledVMs` of
-- pkg/controller/vmrs_controller.go. A panic is `none`.
use virtink.Prelude.{
  ℕ, ◌≡◌, ◌⊎◌, inl, inr, Bool, true, false, not, ◌&&◌, ltb, String, Option, none, some, is_some,
  List, [], ◌++◌, length, select, if◌then◌else◌, arith, Option-cases,
}
use virtink.Api.{Kube, VirtualMachine, Condition, time_is_zero}
use virtink.Expectations.Tracking.{Stores, Expectations, satisfied_expectations}
use virtink.ReplicaSet.Objects.{Labels, Selectors, VirtualMachineReplicaSet, object_key}
use virtink.ReplicaSet.Filter.{filter_active_vms, filter_finished_vms, filter_unknown_vms}
use virtink.ReplicaSet.Status.{calculate_status}
use virtink.ReplicaSet.Scale.{Calls, Pass, start, scale_vms, clean_vms}

-- `getControlledVMs`: the machines that the indexed list gives and the selector matches.
abbrev pub controlled_vms :
    {K : Kube}
    → Option (Labels → Bool)
    → Option (List (VirtualMachine K))
    → Option (List (VirtualMachine K))
controlled_vms test none = none
controlled_vms none (some vms) = none
controlled_vms (some test) (some vms) = some (select (λ vm. test vm.meta.labels) vms)

-- How a run ends, and the calls that it made.
pub data Run (P : Stores) (K : Kube) (L : Selectors) : Type 0 where
  list_failed : Run P K L
  panicked : Run P K L
  finished : VirtualMachineReplicaSet K L → Pass P → Run P K L

module _ {P : Stores} {K : Kube} {L : Selectors} (c : Calls K)
    (true_condition : List Condition → String → Bool) where
  conclude : VirtualMachineReplicaSet K L → List (VirtualMachine K) → Pass P → Run P K L
  unfolding calculate_status
  conclude vmrs active s = elim (calculate_status true_condition vmrs active s.first_error) [
    | none ↦ panicked
    | some vmrs' ↦ finished vmrs' s
  ]

  -- The finished machines are deleted only when scaling had no error.
  clean_after : VirtualMachineReplicaSet K L → List (VirtualMachine K) → Pass P → Option (Pass P)
  unfolding clean_vms
  clean_after vmrs ended s =
      if ltb 0 (length ended) && not (is_some s.first_error)
      then clean_vms c (object_key vmrs.meta) ended s
      else some s

  run_on : ℕ → VirtualMachineReplicaSet K L → List (VirtualMachine K) → Expectations P → Run P K L
  unfolding satisfied_expectations scale_vms clean_after conclude
  run_on now vmrs vms u =
      let active = filter_active_vms vms in
      let ended = filter_finished_vms vms ++ filter_unknown_vms vms in
      let needs_sync = satisfied_expectations now (object_key vmrs.meta) u in
      if needs_sync && not vmrs.spec.paused && time_is_zero vmrs.meta.deletion_timestamp
      then elim (clean_after vmrs ended (scale_vms c now vmrs active u)) [
        | none ↦ panicked
        | some s ↦ conclude vmrs active s
      ]
      else conclude vmrs active (start u)

  -- `listed` is the answer to listing the machines of the namespace whose controller is the set.
  unfoldable pub reconcile :
      ℕ
      → VirtualMachineReplicaSet K L
      → Option (List (VirtualMachine K))
      → Expectations P
      → Run P K L
  unfolding run_on
  reconcile now vmrs listed u = elim (controlled_vms (L.as_selector vmrs.spec.selector) listed) [
    | none ↦ list_failed
    | some vms ↦ run_on now vmrs vms u
  ]

  abbrev pub Idle : Expectations P → Run P K L → Type 0
  Idle u list_failed = Unit
  Idle u panicked = Unit
  Idle u (finished vmrs s) = (s.created_count ≡ 0) × (s.deleted_keys ≡ []) × (s.expectations ≡ u)

  -- A set whose expectations are not satisfied, that is paused or that is being deleted has no machine
  -- created or deleted by a run, which leaves all expectations as they are.
  pub reconcile-Idle :
      (now : ℕ) (vmrs : VirtualMachineReplicaSet K L) (listed : Option (List (VirtualMachine K)))
      (u : Expectations P)
      → (satisfied_expectations now (object_key vmrs.meta) u ≡ false)
        ⊎ ((vmrs.spec.paused ≡ true) ⊎ (time_is_zero vmrs.meta.deletion_timestamp ≡ false))
      → Idle u (reconcile now vmrs listed u)
  unfolding reconcile
  reconcile-Idle now vmrs listed u h =
      elim (Option-cases (controlled_vms (L.as_selector vmrs.spec.selector) listed)) [
        | inl e ↦ ground arith
        | inr (vms, e) ↦
            elim (Option-cases
              (calculate_status true_condition vmrs (filter_active_vms vms) none)) [
                | inl f ↦ ground arith
                | inr (v, f) ↦ ground arith
              ]
      ]
