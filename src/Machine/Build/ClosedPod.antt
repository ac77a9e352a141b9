-- ===== src/Machine/Build/ClosedPod.antt =====
-- The whole pod of `buildVMPod` and `buildTargetVMPod` of pkg/controller/vm_controller.go is closed.
use virtink.Prelude.{
  sym, subst, ◌∙◌, ℕ, String, str_eq, Option, none, some, List, [], ◌∷◌, if◌then◌else◌, Bool-cases,
  inl, inr,
}
use virtink.Api.{Kube, VirtualMachine, VirtualMachineSpec, Network, Interface, MultusNetworkSource}
use virtink.Machine.Monad.{Cluster, State, current}
use virtink.Machine.Ensures.{
  Ensures, Holds, bind-Ensures, after-Ensures, pure-Ensures, raise-Ensures, if-Ensures,
}
use virtink.Machine.Build.Draft.{Draft, Builder, NetworkElement, increment_container_resource}
use virtink.Machine.Build.Networks.{
  add_multus, add_through, add_interface, add_networks, add_resource, request_network,
}
use virtink.Machine.Build.Assembly.{
  add_sidecars, networks_result, add_network_annotation, data_result, finish, build_vm_pod,
}
use virtink.Machine.Build.Closed.{
  IsClosed, ClosedDraft, has_volume-last, more-Closed, add_env-Closed, increment-Closed,
  set_annotation-Closed, share-Closed,
}
use virtink.Machine.Build.ClosedVolumes.{add_vm_volumes-Closed}
use virtink.Machine.Build.ClosedParts.{
  first_draft-Closed, add_settings-Closed, add_kernel-Closed, add_hugepages-Closed,
  add_vhost_user-Closed, block_volumes-Closed, contains-map, file_systems-Closed,
  with_resources-Closed,
}

module _ {K : Kube} (c : Cluster K) (b : Builder K) where
  resource_if-Closed :
      (name : String) (d : Draft K) → ClosedDraft d → ClosedDraft (add_resource c b name d)
  resource_if-Closed name d h = elim (Bool-cases (str_eq name "")) [
    | inl e ↦
        subst (λ t. ClosedDraft (if t then d else increment_container_resource name d)) (sym e) h
    | inr e ↦
        subst (λ t. ClosedDraft (if t then d else increment_container_resource name d)) (sym e)
          (increment-Closed name d h)
  ]

  add_multus-Closed :
      (vm : VirtualMachine K) (index : ℕ) (i : Interface) (s : MultusNetworkSource) (d : Draft K)
      → ClosedDraft d
      → Ensures ClosedDraft (add_multus c b vm index i s d)
  unfolding add_multus
  add_multus-Closed vm index i s d h = after-Ensures _ _ (λ calls. after-Ensures _ _ (λ n.
      bind-Ensures
        (share-Closed _ (
          add_env-Closed _ _ _ (
            resource_if-Closed n.resource_name (request_network c b index i s d)
              (record { pod = h.pod }))))
        (λ e k. if-Ensures _ (add_vhost_user-Closed i n.config e k) (pure-Ensures e k))))

  add_through-Closed :
      (vm : VirtualMachine K) (index : ℕ) (i : Interface) (s : Option MultusNetworkSource)
      (d : Draft K)
      → ClosedDraft d
      → Ensures ClosedDraft (add_through c b vm index i s d)
  unfolding add_through
  add_through-Closed vm index i (some s) d h = add_multus-Closed vm index i s d h
  add_through-Closed vm index i none d h = pure-Ensures d h

  add_interface-Closed :
      (vm : VirtualMachine K) (index : ℕ) (n : Network) (i : Option Interface) (d : Draft K)
      → ClosedDraft d
      → Ensures ClosedDraft (add_interface c b vm index n i d)
  unfolding add_interface
  add_interface-Closed vm index n none d h = raise-Ensures _
  add_interface-Closed vm index n (some i) d h =
      add_through-Closed vm index i n.source.multus _ (add_settings-Closed b index i d h)

  add_networks-Closed :
      (vm : VirtualMachine K) (index : ℕ) (ns : List Network) (d : Draft K)
      → ClosedDraft d
      → Ensures ClosedDraft (add_networks c b vm index ns d)
  unfolding add_networks
  add_networks-Closed vm index [] d h = pure-Ensures d h
  add_networks-Closed vm index (n ∷ ns) d h =
      bind-Ensures (add_interface-Closed vm index n _ d h) (λ e k. add_networks-Closed vm _ ns e k)

  networks_result-Closed :
      (r : Option String) (d : Draft K)
      → ClosedDraft d
      → Ensures ClosedDraft (networks_result b r d)
  unfolding networks_result
  networks_result-Closed none d h = raise-Ensures _
  networks_result-Closed (some json) d h = share-Closed _ (set_annotation-Closed _ json d h)

  network_annotation-Closed :
      (ns : List NetworkElement) (d : Draft K)
      → ClosedDraft d
      → Ensures ClosedDraft (add_network_annotation b ns d)
  unfolding add_network_annotation
  network_annotation-Closed [] d h = pure-Ensures d h
  network_annotation-Closed (n ∷ ns) d h = networks_result-Closed (b.marshal_networks (n ∷ ns)) d h

  data_result-Closed :
      (r : Option String) (d : Draft K) → ClosedDraft d → Ensures ClosedDraft (data_result b r d)
  unfolding data_result
  data_result-Closed none d h = raise-Ensures _
  data_result-Closed (some json) d h = pure-Ensures _ (add_env-Closed _ _ d h)

  add_sidecars-Closed :
      (s : VirtualMachineSpec K) (d : Draft K) → ClosedDraft d → ClosedDraft (add_sidecars s d)
  unfolding add_sidecars
  add_sidecars-Closed s d h =
      let m = more-Closed d.pod s.sidecar_volumes h.pod in
      record { pod = record { mounts = m.mounts; devices = m.devices; inits = m.inits } }

  finish-Closed : (d : Draft K) → ClosedDraft d → Ensures IsClosed (finish c b d)
  unfolding finish add_sidecars
  finish-Closed d h = after-Ensures current _ (λ vm.
      bind-Ensures (data_result-Closed (b.marshal_vm vm) d h) (λ e k. pure-Ensures _ (
        with_resources-Closed vm _ (
          (file_systems-Closed _ vm.spec.instance_spec.file_systems (add_sidecars vm.spec e)
            (λ n m.
              has_volume-last e.pod.spec.volumes vm.spec.sidecar_volumes n
                (sym (contains-map vm.spec.sidecar_volumes n) ∙ m))
            (add_sidecars-Closed vm.spec e k)).pod))))

  closed : Ensures IsClosed (build_vm_pod c b)
  unfolding build_vm_pod
  closed = after-Ensures current _ (λ vm.
      bind-Ensures (share-Closed _ (first_draft-Closed b vm)) (λ d h.
        bind-Ensures
          (add_vm_volumes-Closed c b vm vm.spec.volumes _
            (add_hugepages-Closed _ _ (add_kernel-Closed vm.spec.instance_spec.kernel d h)))
          (λ e k.
            bind-Ensures
              (add_networks-Closed vm 0 vm.spec.networks _
                (block_volumes-Closed e.block_volumes e k))
              (λ g l. bind-Ensures (network_annotation-Closed g.networks g l) finish-Closed))))

  -- Whatever the machine and the answers of the cluster: in a pod that is built for the machine, each
  -- mount and each device of the program's container, and each mount of an init container, is of a volume
  -- of the pod.
  pub build_vm_pod-IsClosed : (s : State K) → Holds IsClosed (build_vm_pod c b s)
  build_vm_pod-IsClosed s = closed.run s
