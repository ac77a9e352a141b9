-- ===== src/ReplicaSet/Handlers.antt =====
-- The handler of the validating webhook of replica sets, pkg/controller/vmrs_webhook.go. A dereferenced
-- nil pointer is `none`.
use virtink.Prelude.{
  ◌≡◌, refl, ◌↔◌, Option, none, some, Option-cases, inl, inr, [], ◌∷◌, ◌++◌, arith, append-eq-nil,
  Eq,
}
use mathlib.Core.Option.{some_inj}
use virtink.Api.{Kube, VirtualMachineSpec}
use virtink.Field.{child, ErrorList}
use virtink.Admission.{
  Operation, Request, Response, allowed, errored, respond, respond-allowed_iff, bad_request,
}
use virtink.ReplicaSet.Objects.{Selectors, VmTemplate, VirtualMachineReplicaSet}
use virtink.ReplicaSet.Webhook.{
  validate_vmrs_spec, validate_vmrs_update, ValidSet, validate_vmrs_spec-nil_iff,
}

abbrev answer : Option ErrorList → Option Response
answer none = none
answer (some errs) = some (respond errs)

abbrev join : ErrorList → Option ErrorList → Option ErrorList
join errs none = none
join errs (some more) = some (errs ++ more)

answer-allowed_iff : (errs : ErrorList) → (answer (some errs) ≡ some allowed) ↔ (errs ≡ [])
answer-allowed_iff errs =
    let r = respond-allowed_iff errs in (λ h. r.0 (some_inj.0 h), λ h. some_inj.1 (r.1 h))

join-allowed_iff :
    (errs : ErrorList) (o : Option ErrorList)
    → (answer (join errs o) ≡ some allowed) ↔ ((errs ≡ []) × (o ≡ some []))
join-allowed_iff errs none = ground arith
join-allowed_iff errs (some more) =
    let r = answer-allowed_iff (errs ++ more) in
    let both = append-eq-nil errs more in
    (λ h. let (a, b) = both.0 (r.0 h) in (a, some_inj.1 b), λ h. r.1 (both.1 (h.0, some_inj.0 h.1)))

module _ {K : Kube} where
  -- Both templates are there, with one specification.
  abbrev SameTemplate : Option (VmTemplate K) → Option (VmTemplate K) → Type 0
  SameTemplate none o = ⊥
  SameTemplate (some t) none = ⊥
  SameTemplate (some t) (some o) = t.spec ≡ o.spec

module _ {K : Kube} {L : Selectors} (selector_eq : Eq (Option L.LabelSelector))
    (spec_eq : Eq (VirtualMachineSpec K)) where
  -- `ValidateVMReplicaSet`
  unfoldable pub validate_vmrs :
      VirtualMachineReplicaSet K L → Option (VirtualMachineReplicaSet K L) → Option ErrorList
  validate_vmrs vmrs none = some (validate_vmrs_spec vmrs.spec (child "spec" ∷ []))
  validate_vmrs vmrs (some old) =
      join (validate_vmrs_spec vmrs.spec (child "spec" ∷ []))
        (validate_vmrs_update selector_eq spec_eq vmrs old)

  handle_object :
      Operation
      → VirtualMachineReplicaSet K L
      → Option (VirtualMachineReplicaSet K L)
      → Option Response
  unfolding validate_vmrs
  handle_object Operation.create vmrs old = answer (validate_vmrs vmrs none)
  handle_object Operation.update vmrs none = some (errored bad_request)
  handle_object Operation.update vmrs (some old) = answer (validate_vmrs vmrs (some old))
  handle_object Operation.other_operation vmrs old = some allowed

  handle_decoded :
      Operation
      → Option (VirtualMachineReplicaSet K L)
      → Option (VirtualMachineReplicaSet K L)
      → Option Response
  unfolding handle_object
  handle_decoded op none old = some (errored bad_request)
  handle_decoded op (some vmrs) old = handle_object op vmrs old

  -- `VMReplicaSetValidator.Handle`
  unfoldable pub handle_vmrs : Request (VirtualMachineReplicaSet K L) → Option Response
  unfolding handle_decoded
  handle_vmrs r = handle_decoded r.operation r.object r.old_object

  validate_vmrs_update-nil_iff :
      (vmrs old : VirtualMachineReplicaSet K L)
      → (validate_vmrs_update selector_eq spec_eq vmrs old ≡ some []) ↔ (
          (vmrs.spec.selector ≡ old.spec.selector)
          × SameTemplate vmrs.spec.template old.spec.template)
  unfolding validate_vmrs_update
  validate_vmrs_update-nil_iff vmrs old = elim (Option-cases vmrs.spec.template) [
    | inl n ↦ ground arith
    | inr (t, n) ↦ elim (Option-cases old.spec.template) [
      | inl e ↦ ground arith
      | inr (o, e) ↦ ground (
        arith,
        selector_eq.beq_iff vmrs.spec.selector old.spec.selector,
        spec_eq.beq_iff t.spec o.spec,
      )
    ]
  ]

  abbrev pub AdmitsSet :
      Operation → VirtualMachineReplicaSet K L → Option (VirtualMachineReplicaSet K L) → Type 0
  AdmitsSet Operation.create vmrs old = ValidSet vmrs.spec
  AdmitsSet Operation.update vmrs none = ⊥
  AdmitsSet Operation.update vmrs (some old) =
      ValidSet vmrs.spec
      × (vmrs.spec.selector ≡ old.spec.selector)
      × SameTemplate vmrs.spec.template old.spec.template
  AdmitsSet Operation.other_operation vmrs old = Unit

  -- A request whose replica set decodes is allowed exactly when it creates a valid set, updates an old one
  -- to a valid set with the same selector and the same specification of the template, or is of another
  -- kind.
  pub handle_vmrs-allowed_iff :
      (op : Operation) (vmrs : VirtualMachineReplicaSet K L)
      (old : Option (VirtualMachineReplicaSet K L))
      → (handle_vmrs (record { operation = op; object = some vmrs; old_object = old })
          ≡ some allowed)
        ↔ AdmitsSet op vmrs old
  unfolding handle_vmrs
  handle_vmrs-allowed_iff Operation.create vmrs old =
      let v = validate_vmrs_spec-nil_iff vmrs.spec (child "spec" ∷ []) in
      let r = answer-allowed_iff (validate_vmrs_spec vmrs.spec (child "spec" ∷ [])) in
      (λ h. v.0 (r.0 h), λ h. r.1 (v.1 h))
  handle_vmrs-allowed_iff Operation.update vmrs none = ground arith
  handle_vmrs-allowed_iff Operation.update vmrs (some old) =
      let v = validate_vmrs_spec-nil_iff vmrs.spec (child "spec" ∷ []) in
      let u = validate_vmrs_update-nil_iff vmrs old in
      let r =
        join-allowed_iff (validate_vmrs_spec vmrs.spec (child "spec" ∷ []))
          (validate_vmrs_update selector_eq spec_eq vmrs old) in
      (
        λ h. let (a, b) = r.0 h in let (c, d) = u.0 b in (v.0 a, c, d),
        λ h. r.1 (v.1 h.0, u.1 (h.1, h.2)),
      )
  handle_vmrs-allowed_iff Operation.other_operation vmrs old = (λ _. tt, λ _. refl)
