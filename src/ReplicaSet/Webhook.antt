-- ===== src/ReplicaSet/Webhook.antt =====
-- The webhooks of replica sets, pkg/controller/vmrs_webhook.go. A dereferenced nil pointer is a panic.
use virtink.Prelude.{
  ◌≡◌, ◌↔◌, inl, inr, Bool, true, false, not, ◌&&◌, if◌then◌else◌, Option, none, some, is_some,
  Option-cases, Bool-cases, [], ◌∷◌, ◌++◌, arith, Eq, ℕ, List,
}
use virtink.Prelude.Int.{ℤ, pos, ltb_ℤ}
use virtink.Api.{Kube, VirtualMachine, VirtualMachineSpec}
use virtink.Expectations.Tracking.{Stores, Expectations}
use virtink.ReplicaSet.Scale.{Calls, wanted_replicas, scale_vms}
use virtink.Field.{FieldPath, child, FieldError, ErrorType, ErrorList, when}
use virtink.ReplicaSet.Objects.{Labels, Selectors, VmTemplate, VmrsSpec, VirtualMachineReplicaSet}

abbrev error_at : ErrorType → FieldPath → FieldError
error_at t p = record { error_type = t; path = p }

abbrev labels_path : FieldPath → FieldPath
labels_path p = child "labels" ∷ child "metadata" ∷ child "template" ∷ p

abbrev is_negative : Option ℤ → Bool
is_negative none = false
is_negative (some r) = ltb_ℤ r (pos 0)

unfoldable pub check_matches : Option (Labels → Bool) → Labels → FieldPath → ErrorList
check_matches none ls p = error_at ErrorType.invalid (child "selector" ∷ p) ∷ []
check_matches (some test) ls p = when (not (test ls)) (error_at ErrorType.invalid (labels_path p))

module _ {K : Kube} where
  -- The checks of the template, and of its labels against the selector.
  unfoldable pub check_template :
      Bool → Option (Labels → Bool) → Option (VmTemplate K) → FieldPath → ErrorList
  unfolding check_matches
  check_template selected selector none p = error_at ErrorType.required (child "template" ∷ p) ∷ []
  check_template selected selector (some t) p =
      when (not (is_some t.meta.labels)) (error_at ErrorType.required (labels_path p))
      ++ (if selected && is_some t.meta.labels then check_matches selector t.meta.labels p else [])

  -- The template has labels, and the selector matches them.
  abbrev HasTemplate : Option (Labels → Bool) → Option (VmTemplate K) → Type 0
  HasTemplate none t = ⊥
  HasTemplate (some test) none = ⊥
  HasTemplate (some test) (some t) = (is_some t.meta.labels ≡ true) × (test t.meta.labels ≡ true)

module _ {K : Kube} {L : Selectors} where
  -- `MutateVMReplicaSet`
  unfoldable pub mutate_vmrs : VirtualMachineReplicaSet K L → VirtualMachineReplicaSet K L
  mutate_vmrs vmrs = elim vmrs.spec.replicas [
    | none ↦ record vmrs { spec = record (vmrs.spec) { replicas = some (pos 1) } }
    | some r ↦ vmrs
  ]

  -- `ValidateVMReplicaSetSpec`: the specification is a field of the object, never nil.
  unfoldable pub validate_vmrs_spec : VmrsSpec K L → FieldPath → ErrorList
  unfolding check_template
  validate_vmrs_spec spec p =
      when (not (is_some spec.selector)) (error_at ErrorType.required (child "selector" ∷ p))
      ++ (when (is_negative spec.replicas) (error_at ErrorType.invalid (child "replicas" ∷ p))
          ++ check_template (is_some spec.selector) (L.as_selector spec.selector) spec.template p)

  -- `ValidateVMReplicaSetUpdate`, which panics on a missing template
  unfoldable pub validate_vmrs_update :
      Eq (Option L.LabelSelector)
      → Eq (VirtualMachineSpec K)
      → VirtualMachineReplicaSet K L
      → VirtualMachineReplicaSet K L
      → Option ErrorList
  validate_vmrs_update selector_eq spec_eq vmrs old = elim vmrs.spec.template [
    | none ↦ none
    | some t ↦ elim old.spec.template [
      | none ↦ none
      | some o ↦ some (
          when (not (selector_eq.beq vmrs.spec.selector old.spec.selector))
            (error_at ErrorType.forbidden (child "selector" ∷ child "spec" ∷ []))
          ++ when (not (spec_eq.beq t.spec o.spec))
              (error_at ErrorType.forbidden (child "spec" ∷ child "template" ∷ child "spec" ∷ [])))
    ]
  ]

  abbrev pub ValidSet : VmrsSpec K L → Type 0
  ValidSet spec =
      (is_some spec.selector ≡ true)
      × (is_negative spec.replicas ≡ false)
      × HasTemplate (L.as_selector spec.selector) spec.template

  -- The specification of a replica set has no error exactly when it has a selector, does not ask for a
  -- negative number of replicas, the selector can be converted, and the template is given with labels that
  -- the selector matches.
  pub validate_vmrs_spec-nil_iff :
      (spec : VmrsSpec K L) (p : FieldPath) → (validate_vmrs_spec spec p ≡ []) ↔ ValidSet spec
  unfolding validate_vmrs_spec
  validate_vmrs_spec-nil_iff spec p = elim (Option-cases spec.template) [
    | inl n ↦ elim (Option-cases (L.as_selector spec.selector)) [
      | inl a ↦ ground arith
      | inr (f, a) ↦ ground arith
    ]
    | inr (t, n) ↦ elim (Option-cases (L.as_selector spec.selector)) [
      | inl a ↦ ground arith
      | inr (test, a) ↦ elim (Bool-cases (test t.meta.labels)) [
        | inl b ↦ ground arith
        | inr b ↦ ground arith
      ]
    ]
  ]

  -- The mutating webhook changes nothing but the number of replicas, which becomes the number that the
  -- controller acts upon: the one that is given, or one. So the controller makes the same pass over the
  -- set as without the webhook, and the specification is admitted with the same errors.
  pub mutate_vmrs-default :
      {P : Stores} (vmrs : VirtualMachineReplicaSet K L) (p : FieldPath)
      → (mutate_vmrs vmrs ≡ record vmrs {
        spec = record (vmrs.spec) { replicas = some (wanted_replicas vmrs.spec.replicas) };
      })
        × ((c : Calls K) (now : ℕ) (vms : List (VirtualMachine K)) (u : Expectations P)
            → scale_vms c now (mutate_vmrs vmrs) vms u ≡ scale_vms c now vmrs vms u)
        × (validate_vmrs_spec (mutate_vmrs vmrs).spec p ≡ validate_vmrs_spec vmrs.spec p)
  unfolding mutate_vmrs validate_vmrs_spec scale_vms
  mutate_vmrs-default vmrs p = elim (Option-cases vmrs.spec.replicas) [
    | inl n ↦ (ground arith, λ c now vms u. ground arith, ground arith)
    | inr (r, n) ↦ (ground arith, λ c now vms u. ground arith, ground arith)
  ]
