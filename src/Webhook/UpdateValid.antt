-- ===== src/Webhook/UpdateValid.antt =====
-- Which updates of a virtual machine are accepted, and which requests are allowed.
use virtink.Prelude.{
  ◌≡◌, refl, ◌↔◌, not, Option, none, some, List, [], ◌∷◌, arith, All, append-eq-nil, Eq,
}
use virtink.Api.{Kube, Volume, VirtualMachineSpec, VirtualMachine}
use virtink.Field.{FieldPath, child, ErrorType, when}
use virtink.Admission.{Operation, allowed, respond-allowed_iff}
use virtink.Webhook.Cidr.{Net, error_at}
use virtink.Webhook.Spec.{validate_vm_spec, ValidSpec, validate_vm_spec-nil_iff}
use virtink.Webhook.Update.{
  find_volume, with_mutable_fields, check_old_volume, check_new_volume, check_old_volumes,
  check_new_volumes, validate_vm_update, handle_vm, KeptOrUnplugged, OldOrPlugged, AllowedUpdate,
}

module _ {K : Kube} (spec_eq : Eq (VirtualMachineSpec K)) (volume_eq : Eq (Volume K)) where
  check_old_volume-nil_iff :
      (v : Volume K) (o : Option (Volume K))
      → (check_old_volume spec_eq volume_eq v o ≡ []) ↔ KeptOrUnplugged spec_eq volume_eq v o
  unfolding check_old_volume
  check_old_volume-nil_iff v none = ground arith
  check_old_volume-nil_iff v (some w) = ground (arith, volume_eq.beq_iff v w)

  check_new_volume-nil_iff :
      (v : Volume K) (o : Option (Volume K))
      → (check_new_volume spec_eq volume_eq v o ≡ []) ↔ OldOrPlugged spec_eq volume_eq v o
  unfolding check_new_volume
  check_new_volume-nil_iff v none = ground arith
  check_new_volume-nil_iff v (some w) = ground arith

  check_old_volumes-nil_iff :
      (vs new : List (Volume K))
      → (check_old_volumes spec_eq volume_eq vs new ≡ [])
        ↔ All (λ v. KeptOrUnplugged spec_eq volume_eq v (find_volume v.name new)) vs
  unfolding check_old_volumes
  check_old_volumes-nil_iff [] new = (λ _. tt, λ _. refl)
  check_old_volumes-nil_iff (v ∷ vs) new =
      let first = check_old_volume-nil_iff v (find_volume v.name new) in
      let ih = check_old_volumes-nil_iff vs new in
      let both = append-eq-nil _ _ in
      (λ h. let (a, b) = both.0 h in (first.0 a, ih.0 b), λ h. both.1 (first.1 h.0, ih.1 h.1))

  check_new_volumes-nil_iff :
      (vs old : List (Volume K))
      → (check_new_volumes spec_eq volume_eq vs old ≡ [])
        ↔ All (λ v. OldOrPlugged spec_eq volume_eq v (find_volume v.name old)) vs
  unfolding check_new_volumes
  check_new_volumes-nil_iff [] old = (λ _. tt, λ _. refl)
  check_new_volumes-nil_iff (v ∷ vs) old =
      let first = check_new_volume-nil_iff v (find_volume v.name old) in
      let ih = check_new_volumes-nil_iff vs old in
      let both = append-eq-nil _ _ in
      (λ h. let (a, b) = both.0 h in (first.0 a, ih.0 b), λ h. both.1 (first.1 h.0, ih.1 h.1))

  same-nil_iff :
      (a b : VirtualMachineSpec K) (p : FieldPath)
      → (when (not (spec_eq.beq a b)) (error_at ErrorType.forbidden p) ≡ []) ↔ (a ≡ b)
  same-nil_iff a b p = ground (arith, spec_eq.beq_iff a b)

  -- An update is accepted exactly when nothing but the run policy, the volumes and the disks changes,
  -- every old volume is unchanged or hotpluggable and gone, and every volume with a new name is
  -- hotpluggable.
  pub validate_vm_update-nil_iff :
      (vm old : VirtualMachine K)
      → (validate_vm_update spec_eq volume_eq vm old ≡ [])
        ↔ AllowedUpdate spec_eq volume_eq old.spec vm.spec
  unfolding validate_vm_update
  validate_vm_update-nil_iff vm old =
      let same = same-nil_iff (with_mutable_fields old.spec vm.spec) vm.spec (child "spec" ∷ []) in
      let olds = check_old_volumes-nil_iff old.spec.volumes vm.spec.volumes in
      let news = check_new_volumes-nil_iff vm.spec.volumes old.spec.volumes in
      let whole = append-eq-nil (when _ _) _ in
      let loops = append-eq-nil (check_old_volumes spec_eq volume_eq _ _) _ in
      (
        λ h. let (a, b) = whole.0 h in let (c, d) = loops.0 b in (same.0 a, olds.0 c, news.0 d),
        λ h. whole.1 (same.1 h.0, loops.1 (olds.1 h.1, news.1 h.2)),
      )

  -- What the webhook admits, by operation.
  abbrev pub Admits : Net → Operation → VirtualMachine K → Option (VirtualMachine K) → Type 0
  Admits net Operation.create vm old = ValidSpec net vm.spec
  Admits net Operation.update vm none = ⊥
  Admits net Operation.update vm (some old) =
      ValidSpec net vm.spec × AllowedUpdate spec_eq volume_eq old.spec vm.spec
  Admits net Operation.other_operation vm old = Unit

  -- A request whose object decodes is allowed exactly when it creates a machine with a valid
  -- specification, updates one whose old object decodes to a valid specification by an accepted
  -- update, or is of another kind.
  pub handle_vm-allowed_iff :
      (net : Net) (op : Operation) (vm : VirtualMachine K) (old : Option (VirtualMachine K))
      → (handle_vm spec_eq volume_eq net
            (record { operation = op; object = some vm; old_object = old })
          ≡ allowed)
        ↔ Admits net op vm old
  unfolding handle_vm
  handle_vm-allowed_iff net Operation.create vm old =
      let spec = validate_vm_spec-nil_iff net vm.spec (child "spec" ∷ []) in
      let r = respond-allowed_iff (validate_vm_spec net (some (vm.spec)) (child "spec" ∷ [])) in
      (λ h. spec.0 (r.0 h), λ h. r.1 (spec.1 h))
  handle_vm-allowed_iff net Operation.update vm none = (λ h. cc, λ h. absurd h)
  handle_vm-allowed_iff net Operation.update vm (some old) =
      let spec = validate_vm_spec-nil_iff net vm.spec (child "spec" ∷ []) in
      let change = validate_vm_update-nil_iff vm old in
      let r = respond-allowed_iff _ in
      let both = append-eq-nil (validate_vm_spec net _ _) _ in
      (
        λ h. let (a, b) = both.0 (r.0 h) in (spec.0 a, change.0 b),
        λ h. r.1 (both.1 (spec.1 h.0, change.1 h.1)),
      )
  handle_vm-allowed_iff net Operation.other_operation vm old = (λ _. tt, λ _. refl)
