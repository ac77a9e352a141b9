-- ===== src/Webhook/Update.antt =====
-- `ValidateVMUpdate`, `ValidateVM` and the handler of the validating webhook.
use virtink.Prelude.{
  ◌≡◌, not, true, String, str_eq, Option, none, some, List, [], ◌∷◌, ◌++◌, All, if◌then◌else◌, Eq,
}
use virtink.Api.{Kube, Volume, is_hotpluggable, VirtualMachineSpec, VirtualMachine}
use virtink.Field.{FieldPath, child, key, ErrorType, ErrorList, when}
use virtink.Admission.{Operation, Request, Response, allowed, errored, respond, bad_request}
use virtink.Webhook.Cidr.{Net, error_at}
use virtink.Webhook.Spec.{validate_vm_spec}

module _ {K : Kube} where
  -- The first volume with a name.
  unfoldable pub find_volume : String → List (Volume K) → Option (Volume K)
  find_volume name [] = none
  find_volume name (v ∷ vs) = if str_eq v.name name then some v else find_volume name vs

  -- The old specification with the fields that may change taken from the new one.
  abbrev pub with_mutable_fields :
      VirtualMachineSpec K → VirtualMachineSpec K → VirtualMachineSpec K
  with_mutable_fields old new = record old {
    run_policy = new.run_policy;
    volumes = new.volumes;
    instance_spec = record (old.instance_spec) { disks = new.instance_spec.disks };
  }

  abbrev volume_path : Volume K → FieldPath
  volume_path v = key v.name ∷ child "volumes" ∷ child "spec" ∷ []

-- `reflect.DeepEqual` on specifications and on volumes decides equality.
module _ {K : Kube} (spec_eq : Eq (VirtualMachineSpec K)) (volume_eq : Eq (Volume K)) where
  -- One round of the first loop: the volume of the same name in the new list.
  unfoldable pub check_old_volume : Volume K → Option (Volume K) → ErrorList
  check_old_volume v (some w) =
      when (not (volume_eq.beq v w)) (error_at ErrorType.forbidden (volume_path v))
  check_old_volume v none =
      when (not (is_hotpluggable v)) (error_at ErrorType.forbidden (volume_path v))

  -- One round of the second loop.
  unfoldable pub check_new_volume : Volume K → Option (Volume K) → ErrorList
  check_new_volume v (some w) = []
  check_new_volume v none =
      when (not (is_hotpluggable v)) (error_at ErrorType.forbidden (volume_path v))

  unfoldable pub check_old_volumes : List (Volume K) → List (Volume K) → ErrorList
  check_old_volumes [] new = []
  check_old_volumes (v ∷ vs) new =
      check_old_volume v (find_volume v.name new) ++ check_old_volumes vs new

  unfoldable pub check_new_volumes : List (Volume K) → List (Volume K) → ErrorList
  check_new_volumes [] old = []
  check_new_volumes (v ∷ vs) old =
      check_new_volume v (find_volume v.name old) ++ check_new_volumes vs old

  unfoldable pub validate_vm_update : VirtualMachine K → VirtualMachine K → ErrorList
  validate_vm_update vm old =
      when (not (spec_eq.beq (with_mutable_fields old.spec vm.spec) vm.spec))
        (error_at ErrorType.forbidden (child "spec" ∷ []))
      ++ (check_old_volumes old.spec.volumes vm.spec.volumes
          ++ check_new_volumes vm.spec.volumes old.spec.volumes)

  unfoldable pub validate_vm : Net → VirtualMachine K → Option (VirtualMachine K) → ErrorList
  validate_vm net vm none = validate_vm_spec net (some (vm.spec)) (child "spec" ∷ [])
  validate_vm net vm (some old) =
      validate_vm_spec net (some (vm.spec)) (child "spec" ∷ []) ++ validate_vm_update vm old

  -- `VMValidator.Handle`
  handle_object : Net → Operation → VirtualMachine K → Option (VirtualMachine K) → Response
  unfolding validate_vm
  handle_object net Operation.create vm old = respond (validate_vm net vm none)
  handle_object net Operation.update vm none = errored bad_request
  handle_object net Operation.update vm (some old) = respond (validate_vm net vm (some old))
  handle_object net Operation.other_operation vm old = allowed

  handle_decoded :
      Net → Operation → Option (VirtualMachine K) → Option (VirtualMachine K) → Response
  unfolding handle_object
  handle_decoded net op none old = errored bad_request
  handle_decoded net op (some vm) old = handle_object net op vm old

  unfoldable pub handle_vm : Net → Request (VirtualMachine K) → Response
  unfolding handle_decoded
  handle_vm net r = handle_decoded net r.operation r.object r.old_object

  -- An old volume is kept as it is, or it is hotpluggable and its name is gone.
  abbrev pub KeptOrUnplugged : Volume K → Option (Volume K) → Type 0
  KeptOrUnplugged v (some w) = v ≡ w
  KeptOrUnplugged v none = is_hotpluggable v ≡ true

  -- A volume with a new name is hotpluggable.
  abbrev pub OldOrPlugged : Volume K → Option (Volume K) → Type 0
  OldOrPlugged v (some w) = Unit
  OldOrPlugged v none = is_hotpluggable v ≡ true

  abbrev pub AllowedUpdate : VirtualMachineSpec K → VirtualMachineSpec K → Type 0
  AllowedUpdate old new =
      (with_mutable_fields old new ≡ new)
      × All (λ v. KeptOrUnplugged v (find_volume v.name new.volumes)) old.volumes
      × All (λ v. OldOrPlugged v (find_volume v.name old.volumes)) new.volumes
