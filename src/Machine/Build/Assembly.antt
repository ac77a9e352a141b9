-- ===== src/Machine/Build/Assembly.antt =====
-- `buildVMPod` and `buildTargetVMPod` of pkg/controller/vm_controller.go, from their parts.
use virtink.Prelude.{
  Bool, true, false, String, Option, none, some, is_some, List, [], ◌∷◌, ◌++◌, map, if◌then◌else◌,
}
use Prim.Native.String.{◌++◌ as str_append}
use virtink.Prelude.Map.{contains}
use virtink.Api.{
  Kube, VirtualMachine, VirtualMachineSpec, Kernel, FileSystem, Pod, ResourceRequirements,
  empty_dir, empty_dir_on, Container, value, empty_meta, unset_status,
}
use virtink.Machine.Monad.{Cluster, M, ◌>>=◌, ◌>>◌, pure, raise, current, put, fails_with}
use virtink.Machine.Build.Draft.{
  Draft, Builder, NetworkElement, add_volume, add_mount, add_env, add_init, mount_at,
  increment_container_resource, set_label, set_annotation, share, shared_vm,
}
use virtink.Machine.Build.Volumes.{init_container, add_vm_volumes}
use virtink.Machine.Build.Networks.{add_networks}

-- strings.Join with a comma
abbrev join_comma : List String → String
join_comma [] = ""
join_comma (s ∷ []) = s
join_comma (s ∷ ss) = str_append s (str_append "," (join_comma ss))

module _ {K : Kube} (b : Builder K) where
  unfoldable pub first_pod : VirtualMachine K → Pod K
  first_pod vm = record {
    meta = record empty_meta { labels = vm.meta.labels; annotations = vm.meta.annotations };
    generate_name = "";
    spec = record {
      node_name = "";
      node_selector = vm.spec.node_selector;
      required_hosts = none;
      affinity = vm.spec.affinity;
      tolerations = vm.spec.tolerations;
      init_containers = [];
      container = record {
        name = "cloud-hypervisor";
        image = b.image;
        image_pull_policy = "";
        command = [];
        args = [];
        env = [];
        resources = vm.spec.resources;
        mounts =
            mount_at "virtink" "/var/run/virtink"
            ∷ mount_at "hotplug-volumes" "/hotplug-volumes"
            ∷ [];
        devices = [];
        liveness_probe = vm.spec.liveness_probe;
        readiness_probe = vm.spec.readiness_probe;
      };
      sidecars = [];
      volumes =
          record { name = "virtink"; source = empty_dir }
          ∷ record { name = "hotplug-volumes"; source = empty_dir }
          ∷ [];
    };
    status = unset_status;
  }

  unfoldable pub first_draft : VirtualMachine K → Draft K
  unfolding first_pod
  first_draft vm = set_label "virtink.io/vm.name" vm.meta.name (
      increment_container_resource "devices.virtink.io/tun" (
        increment_container_resource "devices.virtink.io/kvm" (record {
          pod = first_pod vm;
          block_volumes = [];
          networks = [];
          userspace_interfaces = 0;
        })))

module _ {K : Kube} where
  unfoldable pub add_kernel : Option Kernel → Draft K → Draft K
  add_kernel none d = d
  add_kernel (some k) d =
      let m = mount_at "virtink-kernel" "/mnt/virtink-kernel" in
      add_init
        (init_container K "init-kernel" k.image k.image_pull_policy []
          (str_append m.mount_path "/vmlinux" ∷ []) (m ∷ []))
        (add_mount m (add_volume "virtink-kernel" empty_dir d))

  unfoldable pub add_hugepages : Bool → Draft K → Draft K
  add_hugepages false d = d
  add_hugepages true d =
      add_mount (mount_at "hugepages" "/dev/hugepages")
        (add_volume "hugepages" (empty_dir_on "HugePages") d)

  abbrev pub add_block_volumes : List String → Draft K → Draft K
  add_block_volumes [] d = d
  add_block_volumes (v ∷ vs) d = add_env "BLOCK_VOLUMES" (value (join_comma (v ∷ vs))) d

  unfoldable pub add_sidecars : VirtualMachineSpec K → Draft K → Draft K
  add_sidecars s d = record d {
    pod = record (d.pod) {
      spec = record (d.pod.spec) {
        volumes = d.pod.spec.volumes ++ s.sidecar_volumes;
        sidecars = d.pod.spec.sidecars ++ s.sidecars;
      };
    };
  }

  -- The volumes of sidecars that are file systems of the machine.
  unfoldable pub mount_file_systems : List String → List FileSystem → Draft K → Draft K
  mount_file_systems names [] d = d
  mount_file_systems names (f ∷ fs) d = mount_file_systems names fs (
      if contains names f.name
      then add_mount (mount_at f.name (str_append "/mnt/" f.name)) d
      else d)

  -- The init containers share the resources of the machine.
  abbrev pub share_resources : ResourceRequirements K → List (Container K) → List (Container K)
  share_resources r [] = []
  share_resources r (i ∷ is) = record i { resources = r } ∷ share_resources r is

  unfoldable pub with_resources : VirtualMachine K → Pod K → Pod K
  with_resources vm p = record p {
    spec = record (p.spec) {
      init_containers = share_resources vm.spec.resources p.spec.init_containers;
    };
  }

module _ {K : Kube} (b : Builder K) where
  unfoldable pub networks_result : Option String → Draft K → M K (Draft K)
  unfolding share
  networks_result none d = raise (fails_with "marshal networks")
  networks_result (some json) d = share (set_annotation "k8s.v1.cni.cncf.io/networks" json d)

  unfoldable pub add_network_annotation : List NetworkElement → Draft K → M K (Draft K)
  unfolding networks_result
  add_network_annotation [] d = pure d
  add_network_annotation (n ∷ ns) d = networks_result (b.marshal_networks (n ∷ ns)) d

  unfoldable pub data_result : Option String → Draft K → M K (Draft K)
  data_result none d = raise (fails_with "marshal VM")
  data_result (some json) d = pure (add_env "VM_DATA" (value (b.encode json)) d)

module _ {K : Kube} (c : Cluster K) (b : Builder K) where
  unfoldable pub finish : Draft K → M K (Pod K)
  unfolding data_result add_sidecars mount_file_systems with_resources
  finish d = do
    vm ← current
    e ← data_result b (b.marshal_vm vm) d
    let g =
        mount_file_systems (map (λ v. v.name) vm.spec.sidecar_volumes)
          vm.spec.instance_spec.file_systems (add_sidecars vm.spec e)
    pure (with_resources vm g.pod)

  -- `buildVMPod`
  unfoldable pub build_vm_pod : M K (Pod K)
  unfolding first_draft share add_kernel add_hugepages add_vm_volumes add_networks
      add_network_annotation finish
  build_vm_pod = do
    vm ← current
    d ← share (first_draft b vm)
    e ← add_vm_volumes c b vm vm.spec.volumes (
        add_hugepages (is_some vm.spec.instance_spec.memory.hugepages)
          (add_kernel vm.spec.instance_spec.kernel d))
    f ← add_networks c b vm 0 vm.spec.networks (add_block_volumes e.block_volumes e)
    g ← add_network_annotation b f.networks f
    finish g

  abbrev pub receiving : String → Pod K → Pod K
  receiving name p = record p {
    spec = record (p.spec) {
      affinity = some (K.keep_apart p.spec.affinity name);
      container = record (p.spec.container) {
        env =
            p.spec.container.env
            ++ (record { name = "RECEIVE_MIGRATION"; source = value "true" } ∷ []);
      };
    };
  }

  -- `buildTargetVMPod`
  unfoldable pub build_target_vm_pod : M K (Pod K)
  unfolding build_vm_pod
  build_target_vm_pod = do
    p ← build_vm_pod
    vm ← current
    put (shared_vm (receiving vm.meta.name p) vm)
    pure (receiving vm.meta.name p)
