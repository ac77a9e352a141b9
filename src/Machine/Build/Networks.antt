-- ===== src/Machine/Build/Networks.antt =====
-- What the networks of a machine add to its pod: the loop over `vm.Spec.Networks` in `buildVMPod` of
-- pkg/controller/vm_controller.go.
use virtink.Prelude.{
  ℕ, suc, ◌==◌, String, str_eq, Option, none, some, is_some, List, [], ◌∷◌, ◌++◌, if◌then◌else◌,
}
use Prim.Native.String.{◌++◌ as str_append}
use virtink.Api.{
  Kube, VirtualMachine, Interface, Network, MultusNetworkSource, empty_dir, host_path, value,
  field_ref,
}
use virtink.Client.{GetResult, found, not_found, failed}
use virtink.Machine.Monad.{
  Cluster, M, ◌>>=◌, pure, raise, call, get_network, NetworkDefinition, VhostConfig, fails_with,
}
use virtink.Machine.Build.Draft.{
  Draft, Builder, add_volume, add_mount, add_env, add_init, mount_at, decimal,
  increment_container_resource, select_node, set_annotation, share,
}
use virtink.Machine.Build.Volumes.{init_container}

abbrev find_interface : String → List Interface → Option Interface
find_interface name [] = none
find_interface name (i ∷ is) = if str_eq i.name name then some i else find_interface name is

module _ {K : Kube} (b : Builder K) where
  -- Two kinds of binding need a system setting, made by a privileged init container.
  unfoldable pub add_settings : ℕ → Interface → Draft K → Draft K
  unfolding decimal
  add_settings index i d =
      let e =
        if is_some i.binding.masquerade
        then add_init
            (init_container K "enable-ip-forward" b.image ""
              ("sysctl" ∷ "-w" ∷ "net.ipv4.ip_forward=1" ∷ []) [] [])
            d
        else d in
      if is_some i.binding.bridge
      then add_init
          (init_container K (str_append "enable-arp-ignore-" (decimal index)) b.image ""
            ("sysctl" ∷ "-w" ∷ "net.ipv4.conf.all.arp_ignore=1" ∷ []) [] [])
          e
      else e

module _ {K : Kube} where
  unfoldable pub add_kube_ovn : Interface → VhostConfig → Draft K → Draft K
  add_kube_ovn i cfg d = add_env "NET_TYPE" (value "kube-ovn") (
      add_env "VHOST_USER_SOCKET" (value (str_append "/var/run/vhost-user/" cfg.socket_name)) (
        add_mount (mount_at cfg.socket_volume_name "/var/run/vhost-user") (
          add_volume cfg.socket_volume_name empty_dir (
            set_annotation "ovn-dpdk.default.ovn.kubernetes.io/mac_address" i.mac
              (select_node "ovn.kubernetes.io/ovs_dp_type" "userspace" d)))))

  abbrev pub add_sockets : Draft K → Draft K
  add_sockets d = add_env "NET_TYPE" (value "userspace") (
      add_env "USERSPACE_CONFIGURATION_DATA"
        (field_ref "metadata.annotations['userspace/configuration-data']")
        (add_mount (mount_at "vhost-user-sockets" "/var/run/vhost-user")
          (add_volume "vhost-user-sockets" (host_path "/usr/local/var/run/openvswitch/") d)))

  -- The interfaces share one directory of sockets.
  unfoldable pub add_userspace : Draft K → Draft K
  add_userspace d =
      let e = record d { userspace_interfaces = suc d.userspace_interfaces } in
      if d.userspace_interfaces == 0 then add_sockets e else e

  unfoldable pub add_vhost_user : Interface → Option VhostConfig → Draft K → M K (Draft K)
  unfolding add_kube_ovn add_userspace share
  add_vhost_user i none d = raise (fails_with "unmarshal NAD config")
  add_vhost_user i (some cfg) d =
      if str_eq cfg.type_name "kube-ovn"
      then share (add_kube_ovn i cfg d)
      else if str_eq cfg.type_name "userspace"
      then pure (add_userspace d)
      else raise (fails_with "CNI plugin is not supported for vhost-user")

module _ {K : Kube} (c : Cluster K) (b : Builder K) where
  unfoldable pub network_result : GetResult NetworkDefinition → M K NetworkDefinition
  network_result (found n) = pure n
  network_result not_found = raise (fails_with "get NAD")
  network_result (failed e) = raise (fails_with e)

  abbrev pub request_network : ℕ → Interface → MultusNetworkSource → Draft K → Draft K
  request_network index i s d = record d {
    networks =
        d.networks
        ++ (record {
          name = s.network_name;
          interface_request = str_append "net" (decimal index);
          mac_request = i.mac;
        }
            ∷ []);
  }

  abbrev pub add_resource : String → Draft K → Draft K
  add_resource name d = if str_eq name "" then d else increment_container_resource name d

  abbrev pub add_network_status : Draft K → Draft K
  add_network_status d =
      add_env "NETWORK_STATUS"
        (field_ref
          (str_append "metadata.annotations['" (str_append b.network_status_annotation "']")))
        d

  unfoldable pub add_multus :
      VirtualMachine K → ℕ → Interface → MultusNetworkSource → Draft K → M K (Draft K)
  unfolding network_result share add_vhost_user decimal
  add_multus vm index i s d = do
    calls ← call (get_network s.network_name)
    n ← network_result (c.network calls vm.meta.namespace s.network_name)
    e ← share (add_network_status (add_resource n.resource_name (request_network index i s d)))
    if is_some i.binding.vhost_user then add_vhost_user i n.config e else pure e

  unfoldable pub add_through :
      VirtualMachine K → ℕ → Interface → Option MultusNetworkSource → Draft K → M K (Draft K)
  unfolding add_multus
  add_through vm index i (some s) d = add_multus vm index i s d
  add_through vm index i none d = pure d

  unfoldable pub add_interface :
      VirtualMachine K → ℕ → Network → Option Interface → Draft K → M K (Draft K)
  unfolding add_settings add_through
  add_interface vm index n none d = raise (fails_with "interface not found for network")
  add_interface vm index n (some i) d =
      add_through vm index i n.source.multus (add_settings b index i d)

  -- `index` is the place of the first network in the list of the machine.
  unfoldable pub add_networks : VirtualMachine K → ℕ → List Network → Draft K → M K (Draft K)
  unfolding add_interface
  add_networks vm index [] d = pure d
  add_networks vm index (n ∷ ns) d = do
    e ← add_interface vm index n (find_interface n.name vm.spec.instance_spec.interfaces) d
    add_networks vm (suc index) ns e
