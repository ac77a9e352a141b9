-- ===== src/Examples/Machines.antt =====
-- A virtual machine with two volumes and two interfaces, and a network package that knows their addresses.
use virtink.Prelude.{
  ◌^◌, Bool, true, false, String, str_eq, none, some, List, [], ◌∷◌, if◌then◌else◌,
}
use virtink.Prelude.Int.{pos}
use virtink.Api.{
  RunPolicy, VirtualMachinePhase, VirtualMachinePowerAction, Interface, InterfaceBindingMethod,
  Network, Volume, Instance, VirtualMachineSpec, VirtualMachine, VirtualMachineStatus, ObjectMeta,
}
use virtink.Webhook.Cidr.{Net}
use virtink.Examples.Data.{kube}

abbrev pub net : Net
net = record {
  parse_mac = λ s. str_eq s "52:54:00:12:34:56";
  parse_cidr = λ s.
      if str_eq s "10.0.2.0/30"
      then some (30, 32)
      else if str_eq s "fd00::/64"
      then some (64, 128)
      else none;
}

abbrev pub meta_of : String → ObjectMeta
meta_of name = record {
  name = name;
  namespace = "default";
  uid = name;
  labels = some (("app", "web") ∷ []);
  annotations = none;
  creation_timestamp = 100;
  deletion_timestamp = none;
  finalizers = [];
  controller = none;
  generation = pos 1;
}

abbrev pub masquerade : InterfaceBindingMethod
masquerade = record {
  bridge = none;
  masquerade = some (record { cidr = "10.0.2.0/30" });
  sriov = none;
  vdpa = none;
  vhost_user = none;
}

abbrev pub unbound : InterfaceBindingMethod
unbound = record { bridge = none; masquerade = none; sriov = none; vdpa = none; vhost_user = none }

abbrev pub interface_of : String → String → InterfaceBindingMethod → Interface
interface_of name mac binding = record { name = name; mac = mac; binding = binding }

abbrev pub root_volume : Volume kube
root_volume = record {
  name = "root";
  source = record {
    container_disk = some (record { image = "ubuntu"; image_pull_policy = "" });
    cloud_init = none;
    container_rootfs = none;
    persistent_volume_claim = none;
    data_volume = none;
  };
}

abbrev pub data_disk : Volume kube
data_disk = record {
  name = "data";
  source = record {
    container_disk = none;
    cloud_init = none;
    container_rootfs = none;
    persistent_volume_claim = some (record { hotpluggable = true; claim_name = "claim" });
    data_volume = none;
  };
}

abbrev pub pod_network : Network
pod_network = record { name = "pod"; source = record { pod = some tt; multus = none } }

abbrev pub instance_with : Bool → List Interface → Instance kube
instance_with dedicated interfaces = record {
  cpu = record { sockets = 1; cores_per_socket = 2; dedicated_cpu_placement = dedicated };
  memory = record { size = pos (2 ^ 30); hugepages = none };
  kernel = none;
  console = none;
  serial = none;
  disks = record { name = "root"; read_only = none } ∷ [];
  file_systems = [];
  interfaces = interfaces;
}

abbrev pub spec_with : Bool → List Interface → List (Volume kube) → VirtualMachineSpec kube
spec_with dedicated interfaces volumes = record {
  node_selector = none;
  affinity = none;
  tolerations = [];
  resources = record { requests = none; limits = none };
  liveness_probe = none;
  readiness_probe = none;
  run_policy = RunPolicy.always;
  instance_spec = instance_with dedicated interfaces;
  volumes = volumes;
  networks = pod_network ∷ [];
  sidecars = [];
  sidecar_volumes = [];
}

abbrev pub running : VirtualMachineStatus
running = record {
  phase = VirtualMachinePhase.running;
  vm_pod_name = "pod";
  vm_pod_uid = "1";
  node_name = "node";
  power_action = VirtualMachinePowerAction.unset;
  migration = none;
  conditions = [];
  volume_status = [];
}

abbrev pub bound : List Interface
bound = interface_of "pod" "52:54:00:12:34:56" masquerade ∷ []

abbrev pub machine_with : List (Volume kube) → VirtualMachine kube
machine_with volumes = record {
  meta = meta_of "vm";
  spec = spec_with false bound volumes;
  status = running;
}

abbrev pub machine : VirtualMachine kube
machine = machine_with (root_volume ∷ [])

-- The same machine with a volume plugged in.
abbrev pub plugged : VirtualMachine kube
plugged = machine_with (root_volume ∷ data_disk ∷ [])
