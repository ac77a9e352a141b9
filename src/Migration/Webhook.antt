-- ===== src/Migration/Webhook.antt =====
-- The validating webhook of migrations, pkg/controller/vmm_webhook.go.
use virtink.Prelude.{
  ℕ, ◌==◌, ◌≡◌, ◌≢◌, ◌↔◌, refl, true, not, if◌then◌else◌, String, str_eq, str_eq_iff, Option, none,
  some, Option-cases, inl, inr, List, [], ◌∷◌, ◌++◌, arith, append-eq-nil,
}
use virtink.Api.{
  Kube, VirtualMachine, VirtualMachineMigration, VirtualMachineMigrationSpec, Condition,
  is_cond_true,
}
use virtink.Client.{GetResult, found, not_found, failed, GetResult-cases}
use virtink.Field.{FieldPath, child, FieldError, ErrorType, ErrorList, when}
use virtink.Admission.{
  Operation, Request, Response, allowed, errored, respond, respond-allowed_iff, bad_request,
  internal_server_error,
}

abbrev error_at : ErrorType → FieldPath → FieldError
error_at t p = record { error_type = t; path = p }

-- `find` is meta.FindStatusCondition, `get` reads a machine by namespace and name, and `diff` counts
-- the changes between two specifications (r3labs/diff), or fails.
module _ {K : Kube} (find : List Condition → String → Option Condition)
    (get : String → String → GetResult (VirtualMachine K))
    (diff : VirtualMachineMigrationSpec → VirtualMachineMigrationSpec → Option ℕ) where
  check_migratable : Option Condition → FieldPath → ErrorList
  check_migratable none p = error_at ErrorType.forbidden p ∷ []
  check_migratable (some c) p = when (not (is_cond_true c.status)) (error_at ErrorType.forbidden p)

  check_vm : GetResult (VirtualMachine K) → FieldPath → ErrorList
  unfolding check_migratable
  check_vm not_found p = error_at ErrorType.not_found p ∷ []
  check_vm (failed e) p = error_at ErrorType.internal p ∷ []
  check_vm (found vm) p = check_migratable (find vm.status.conditions "Migratable") p

  unfoldable pub validate_vm_name : String → String → FieldPath → ErrorList
  unfolding check_vm
  validate_vm_name namespace vm_name p =
      if str_eq vm_name ""
      then error_at ErrorType.required p ∷ []
      else check_vm (get namespace vm_name) p

  unfoldable pub validate_vmm_spec :
      String → Option VirtualMachineMigrationSpec → FieldPath → ErrorList
  validate_vmm_spec namespace none p = error_at ErrorType.required p ∷ []
  validate_vmm_spec namespace (some s) p = validate_vm_name namespace s.vm_name (child "vmName" ∷ p)

  -- The old object is not read.
  unfoldable pub validate_vmm : VirtualMachineMigration → Option VirtualMachineMigration → ErrorList
  unfolding validate_vmm_spec validate_vm_name
  validate_vmm m old = validate_vmm_spec m.meta.namespace (some (m.spec)) (child "spec" ∷ [])

  check_changes : Option ℕ → ErrorList → Response
  check_changes none errs = errored internal_server_error
  check_changes (some n) errs =
      respond (errs ++ when (not (n == 0)) (error_at ErrorType.forbidden (child "spec" ∷ [])))

  handle_object : Operation → VirtualMachineMigration → Option VirtualMachineMigration → Response
  unfolding check_changes validate_vmm
  handle_object Operation.create m old = respond (validate_vmm m none)
  handle_object Operation.update m none = errored bad_request
  handle_object Operation.update m (some old) =
      check_changes (diff old.spec m.spec) (validate_vmm m (some old))
  handle_object Operation.other_operation m old = allowed

  handle_decoded :
      Operation → Option VirtualMachineMigration → Option VirtualMachineMigration → Response
  unfolding handle_object
  handle_decoded op none old = errored bad_request
  handle_decoded op (some m) old = handle_object op m old

  unfoldable pub handle_vmm : Request VirtualMachineMigration → Response
  unfolding handle_decoded
  handle_vmm r = handle_decoded r.operation r.object r.old_object

  -- The machine is known to be migratable.
  abbrev pub IsMigratable : Option Condition → Type 0
  IsMigratable none = ⊥
  IsMigratable (some c) = is_cond_true c.status ≡ true

  abbrev pub CanMigrate : GetResult (VirtualMachine K) → Type 0
  CanMigrate not_found = ⊥
  CanMigrate (failed e) = ⊥
  CanMigrate (found vm) = IsMigratable (find vm.status.conditions "Migratable")

  abbrev pub ValidMigration : VirtualMachineMigration → Type 0
  ValidMigration m = (m.spec.vm_name ≢ "") × CanMigrate (get m.meta.namespace m.spec.vm_name)

  validate_vmm-nil_iff :
      (m : VirtualMachineMigration) (old : Option VirtualMachineMigration)
      → (validate_vmm m old ≡ []) ↔ ValidMigration m
  unfolding validate_vmm
  validate_vmm-nil_iff m old = elim (GetResult-cases (get m.meta.namespace m.spec.vm_name)) [
    | inl (vm, e) ↦ elim (Option-cases (find vm.status.conditions "Migratable")) [
      | inl u ↦ ground (arith, str_eq_iff m.spec.vm_name "")
      | inr (c, u) ↦ ground (arith, str_eq_iff m.spec.vm_name "")
    ]
    | inr (inl e) ↦ ground (arith, str_eq_iff m.spec.vm_name "")
    | inr (inr e) ↦ ground (arith, str_eq_iff m.spec.vm_name "")
  ]

  abbrev pub Admits : Operation → VirtualMachineMigration → Option VirtualMachineMigration → Type 0
  Admits Operation.create m old = ValidMigration m
  Admits Operation.update m none = ⊥
  Admits Operation.update m (some old) = ValidMigration m × (diff old.spec m.spec ≡ some 0)
  Admits Operation.other_operation m old = Unit

  check_changes-allowed_iff :
      (o : Option ℕ) (errs : ErrorList)
      → (check_changes o errs ≡ allowed) ↔ ((errs ≡ []) × (o ≡ some 0))
  unfolding check_changes
  check_changes-allowed_iff none errs = (λ h. cc, λ h. cc)
  check_changes-allowed_iff (some n) errs =
      let last = when (not (n == 0)) (error_at ErrorType.forbidden (child "spec" ∷ [])) in
      ground (arith, respond-allowed_iff (errs ++ last), append-eq-nil errs last)

  -- A migration is admitted exactly when it is created, or updated with no change of its
  -- specification, and it names a machine that is found with the condition Migratable true; requests of
  -- another kind are admitted.
  pub handle_vmm-allowed_iff :
      (op : Operation) (m : VirtualMachineMigration) (old : Option VirtualMachineMigration)
      → (handle_vmm (record { operation = op; object = some m; old_object = old }) ≡ allowed)
        ↔ Admits op m old
  unfolding handle_vmm
  handle_vmm-allowed_iff Operation.create m old =
      let v = validate_vmm-nil_iff m none in
      let r = respond-allowed_iff (validate_vmm m none) in (λ h. v.0 (r.0 h), λ h. r.1 (v.1 h))
  handle_vmm-allowed_iff Operation.update m none = (λ h. cc, λ h. absurd h)
  handle_vmm-allowed_iff Operation.update m (some old) =
      let v = validate_vmm-nil_iff m (some old) in
      let r = check_changes-allowed_iff (diff old.spec m.spec) (validate_vmm m (some old)) in
      (λ h. let (a, b) = r.0 h in (v.0 a, b), λ h. r.1 (v.1 h.0, h.1))
  handle_vmm-allowed_iff Operation.other_operation m old = (λ _. tt, λ _. refl)
