-- ===== src/Examples/Webhooks.antt =====
-- The webhook of virtual machines, run on the machines of the examples.
use virtink.Prelude.{
  ℕ, ◌≡◌, ◌≢◌, refl, ◌↔◌, Bool, true, false, String, Option, none, some, List, [], ◌∷◌, arith,
  Pointwise,
}
use virtink.Prelude.Int.{pos}
use virtink.Api.{VirtualMachine}
use virtink.Admission.{Operation, allowed}
use virtink.Webhook.Cidr.{validate_cidr, RoomForFour, validate_cidr-nil_iff}
use virtink.Webhook.Interface.{
  validate_interface_binding_method, ValidBinding, validate_interface_binding_method-nil_iff,
}
use virtink.Webhook.Volume.{validate_volume_source}
use virtink.Webhook.VolumeValid.{ValidSource, validate_volume_source-nil_iff}
use virtink.Webhook.Network.{validate_network, ValidNetwork, validate_network-nil_iff}
use virtink.Webhook.Instance.{validate_instance}
use virtink.Webhook.InstanceValid.{ValidInstance, ValidCpu, validate_instance-nil_iff}
use virtink.Webhook.Spec.{validate_vm_spec, ValidSpec, ValidDedicated, validate_vm_spec-nil_iff}
use virtink.Webhook.Update.{validate_vm_update, handle_vm, AllowedUpdate}
use virtink.Webhook.UpdateValid.{validate_vm_update-nil_iff, handle_vm-allowed_iff, Admits}
use virtink.Webhook.Mutate.{
  mutate_vm, default_interfaces, finish_interface, default_spec, old_interfaces,
}
use virtink.Webhook.MutateValid.{
  Completes, IsNamed, mutate_vm-Completes, QuantityLaws, default_spec-ValidDedicated,
}
use virtink.Examples.Data.{kube, spec_eq, volume_eq}
use virtink.Examples.Machines.{
  net, masquerade, unbound, interface_of, root_volume, data_disk, pod_network, spec_with, machine,
  plugged, meta_of, running,
}

machine_accepted : validate_vm_spec net (some machine.spec) [] ≡ []
unfolding validate_vm_spec validate_instance virtink.Webhook.Instance.validate_cpu
    virtink.Webhook.Instance.validate_memory virtink.Webhook.Names.each_named
    virtink.Webhook.Instance.validate_disk virtink.Webhook.Instance.check_interface
    virtink.Webhook.Interface.validate_interface virtink.Webhook.Cidr.validate_mac
    validate_interface_binding_method validate_cidr virtink.Webhook.Cidr.check_subnet
    virtink.Webhook.Cidr.shl_one virtink.Prelude.Int.wrap64 virtink.Webhook.Volume.validate_volume
    validate_volume_source virtink.Webhook.Volume.validate_container_disk_volume_source
    validate_network virtink.Webhook.Network.validate_network_source
    virtink.Webhook.Network.validate_pod_network_source
machine_accepted = refl

validate_vm_spec-nil_iff_example :
    (validate_vm_spec net (some (plugged.spec)) [] ≡ []) ↔ ValidSpec net plugged.spec
validate_vm_spec-nil_iff_example = validate_vm_spec-nil_iff net plugged.spec []

handle_vm-allowed_iff_example :
    (handle_vm spec_eq volume_eq net
        (record { operation = Operation.update; object = some plugged; old_object = some machine })
      ≡ allowed)
    ↔ Admits spec_eq volume_eq net Operation.update plugged (some machine)
handle_vm-allowed_iff_example =
    handle_vm-allowed_iff spec_eq volume_eq net Operation.update plugged (some machine)

validate_vm_update-nil_iff_example :
    (validate_vm_update spec_eq volume_eq plugged machine ≡ [])
    ↔ AllowedUpdate spec_eq volume_eq machine.spec plugged.spec
validate_vm_update-nil_iff_example = validate_vm_update-nil_iff spec_eq volume_eq plugged machine

validate_instance-nil_iff_example :
    (validate_instance net (some (machine.spec.instance_spec)) [] ≡ [])
    ↔ ValidInstance net machine.spec.instance_spec
validate_instance-nil_iff_example = validate_instance-nil_iff net machine.spec.instance_spec []

validate_volume_source-nil_iff_example :
    (validate_volume_source (some (data_disk.source)) [] ≡ []) ↔ ValidSource data_disk.source
validate_volume_source-nil_iff_example = validate_volume_source-nil_iff data_disk.source []

validate_interface_binding_method-nil_iff_example :
    (validate_interface_binding_method net (some masquerade) [] ≡ []) ↔ ValidBinding net masquerade
validate_interface_binding_method-nil_iff_example =
    validate_interface_binding_method-nil_iff net masquerade []

-- The subnet has 64 host bits.
validate_cidr-nil_iff_example :
    (validate_cidr net "fd00::/64" 4 [] ≡ [])
    ↔ ((◌≢◌ {A = String} "fd00::/64" "") × RoomForFour (net.parse_cidr "fd00::/64"))
validate_cidr-nil_iff_example = validate_cidr-nil_iff net "fd00::/64" []

validate_network-nil_iff_example :
    (validate_network (some pod_network) [] ≡ []) ↔ ValidNetwork pod_network
validate_network-nil_iff_example = validate_network-nil_iff pod_network []

abbrev random : ℕ → Option (ℕ × ℕ × ℕ)
random n = some (n, 0xab, 0xcd)

abbrev fresh : VirtualMachine kube
fresh = record {
  meta = meta_of "vm";
  spec = spec_with true (interface_of "pod" "" unbound ∷ []) (root_volume ∷ []);
  status = running;
}

-- The MAC of the old machine is kept, and the binding method and its CIDR are filled in.
abbrev mutated : VirtualMachine kube
mutated =
    let s = default_spec fresh.spec in
    let i = finish_interface (interface_of "pod" "" unbound) "52:54:00:12:34:56" in
    record fresh {
      spec = record s { instance_spec = record (s.instance_spec) { interfaces = i ∷ [] } };
    }

mutate_vm-Completes_example :
    IsNamed mutated.spec.run_policy
    × ValidCpu mutated.spec.instance_spec.cpu
    × Pointwise
        (Completes (old_interfaces (some machine)))
        fresh.spec.instance_spec.interfaces
        mutated.spec.instance_spec.interfaces
unfolding mutate_vm default_interfaces virtink.Webhook.Mutate.old_mac default_spec
mutate_vm-Completes_example = mutate_vm-Completes random fresh (some machine) mutated refl

quantity_laws : QuantityLaws kube
quantity_laws = record {
  value-new = λ n. refl;
  is_zero-new = λ n. ground arith;
  equal_refl = λ q. ground arith;
  less_irrefl = λ q. ground arith;
}

default_spec-ValidDedicated_example : ValidDedicated (default_spec fresh.spec)
unfolding default_spec virtink.Webhook.Mutate.default_cpu virtink.Webhook.Mutate.default_memory_size
    virtink.Prelude.Int.◌+ℤ◌
default_spec-ValidDedicated_example =
    default_spec-ValidDedicated quantity_laws fresh.spec refl refl refl refl (ground arith) refl
      refl
