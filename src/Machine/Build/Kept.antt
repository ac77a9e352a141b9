-- ===== src/Machine/Build/Kept.antt =====
-- Building a pod writes to the maps that the pod shares with the machine, and to nothing else of the
-- machine in memory.
use virtink.Prelude.{ℕ, String, Option, none, some, List, [], ◌∷◌, ◌≡◌, Bool, true, false}
use virtink.Api.{
  Kube, VirtualMachine, Volume, ContainerDiskVolumeSource, CloudInitVolumeSource,
  ContainerRootfsVolumeSource, Network, Interface, MultusNetworkSource, Pod, Claim,
}
use virtink.Client.{GetResult, found, not_found, failed}
use virtink.Machine.Monad.{Cluster, pure, VhostConfig, NetworkDefinition}
use virtink.Machine.Reads.{
  Reads, reads, bind-Reads, if-Reads, call-Reads, current-Reads, pure-Reads, raise-Reads,
}
use virtink.Machine.Keeps.{Keeps, Reads-Keeps, bind-Keeps, if-Keeps}
use virtink.Machine.Leads.{change_then-Keeps}
use virtink.Machine.Claims.{get_pvc-Reads, is_ready-Reads, is_block-Reads}
use virtink.Machine.Build.Draft.{Draft, Builder, NetworkElement, share, shared_vm}
use virtink.Machine.Build.Volumes.{
  requeue_unless_pending, check_ready, add_claim_volume, add_source, add_vm_volume, add_vm_volumes,
}
use virtink.Machine.Build.Networks.{
  add_vhost_user, network_result, add_multus, add_through, add_interface, add_networks,
}
use virtink.Machine.Build.Assembly.{
  networks_result, add_network_annotation, data_result, finish, build_vm_pod, build_target_vm_pod,
  receiving,
}

module _ {K : Kube} (c : Cluster K) where
  requeue_unless_pending-Reads : (p : Option Claim) → Reads (requeue_unless_pending c p)
  unfolding requeue_unless_pending
  requeue_unless_pending-Reads none = search reads
  requeue_unless_pending-Reads (some p) = if-Reads _ (pure-Reads tt) (raise-Reads _)

  check_ready-Reads :
      (namespace : String) (v : Volume K) (ready : Bool) → Reads (check_ready c namespace v ready)
  unfolding check_ready
  check_ready-Reads namespace v true = search reads
  check_ready-Reads namespace v false =
      search (reads, get_pvc-Reads c, requeue_unless_pending-Reads)

  add_claim_volume-Reads :
      (namespace : String) (v : Volume K) (d : Draft K) → Reads (add_claim_volume c namespace v d)
  unfolding add_claim_volume
  add_claim_volume-Reads namespace v d =
      search (reads, is_ready-Reads c, check_ready-Reads, is_block-Reads c)

  module _ (b : Builder K) where
    add_source-Reads :
        (disk : Option ContainerDiskVolumeSource) (init : Option CloudInitVolumeSource)
        (rootfs : Option (ContainerRootfsVolumeSource K)) (vm : VirtualMachine K) (v : Volume K)
        (d : Draft K)
        → Reads (add_source c b disk init rootfs vm v d)
    unfolding add_source
    add_source-Reads (some s) init rootfs vm v d = search reads
    add_source-Reads none (some s) rootfs vm v d = search reads
    add_source-Reads none none (some s) vm v d = search reads
    add_source-Reads none none none vm v d =
        if-Reads _ (add_claim_volume-Reads vm.meta.namespace v d) (pure-Reads d)

    add_vm_volume-Reads :
        (vm : VirtualMachine K) (v : Volume K) (d : Draft K) → Reads (add_vm_volume c b vm v d)
    unfolding add_vm_volume
    add_vm_volume-Reads vm v d = add_source-Reads _ _ _ vm v d

    add_vm_volumes-Reads :
        (vm : VirtualMachine K) (vs : List (Volume K)) (d : Draft K)
        → Reads (add_vm_volumes c b vm vs d)
    unfolding add_vm_volumes
    add_vm_volumes-Reads vm [] d = search reads
    add_vm_volumes-Reads vm (v ∷ vs) d =
        bind-Reads (add_vm_volume-Reads vm v d) (λ e. add_vm_volumes-Reads vm vs e)

module _ {κ} {K : Kube} {X : Type κ} (c : Cluster K) (b : Builder K) (f : VirtualMachine K → X)
    (apart : (p : Pod K) (vm : VirtualMachine K) → f (shared_vm p vm) ≡ f vm) where
  share-Keeps : (d : Draft K) → Keeps f (share d)
  unfolding share
  share-Keeps d =
      change_then-Keeps f (shared_vm d.pod) (λ vm. pure d) (apart d.pod)
        (λ vm. Reads-Keeps f (pure-Reads d))

  add_vhost_user-Keeps :
      (i : Interface) (cfg : Option VhostConfig) (d : Draft K) → Keeps f (add_vhost_user i cfg d)
  unfolding add_vhost_user
  add_vhost_user-Keeps i none d = Reads-Keeps f (raise-Reads _)
  add_vhost_user-Keeps i (some cfg) d =
      if-Keeps f _ (share-Keeps _)
        (if-Keeps f _ (Reads-Keeps f (pure-Reads _)) (Reads-Keeps f (raise-Reads _)))

  network_result-Reads : (r : GetResult NetworkDefinition) → Reads (network_result c b r)
  unfolding network_result
  network_result-Reads (found n) = search reads
  network_result-Reads not_found = search reads
  network_result-Reads (failed e) = search reads

  add_multus-Keeps :
      (vm : VirtualMachine K) (index : ℕ) (i : Interface) (s : MultusNetworkSource) (d : Draft K)
      → Keeps f (add_multus c b vm index i s d)
  unfolding add_multus
  add_multus-Keeps vm index i s d = bind-Keeps f (Reads-Keeps f (call-Reads _)) (λ calls.
      bind-Keeps f (Reads-Keeps f (network_result-Reads _)) (λ n.
        bind-Keeps f (share-Keeps _)
          (λ e. if-Keeps f _ (add_vhost_user-Keeps i n.config e) (Reads-Keeps f (pure-Reads e)))))

  add_through-Keeps :
      (vm : VirtualMachine K) (index : ℕ) (i : Interface) (s : Option MultusNetworkSource)
      (d : Draft K)
      → Keeps f (add_through c b vm index i s d)
  unfolding add_through
  add_through-Keeps vm index i (some s) d = add_multus-Keeps vm index i s d
  add_through-Keeps vm index i none d = Reads-Keeps f (pure-Reads d)

  add_interface-Keeps :
      (vm : VirtualMachine K) (index : ℕ) (n : Network) (i : Option Interface) (d : Draft K)
      → Keeps f (add_interface c b vm index n i d)
  unfolding add_interface
  add_interface-Keeps vm index n none d = Reads-Keeps f (raise-Reads _)
  add_interface-Keeps vm index n (some i) d = add_through-Keeps vm index i n.source.multus _

  add_networks-Keeps :
      (vm : VirtualMachine K) (index : ℕ) (ns : List Network) (d : Draft K)
      → Keeps f (add_networks c b vm index ns d)
  unfolding add_networks
  add_networks-Keeps vm index [] d = Reads-Keeps f (pure-Reads d)
  add_networks-Keeps vm index (n ∷ ns) d =
      bind-Keeps f (add_interface-Keeps vm index n _ d) (λ e. add_networks-Keeps vm _ ns e)

  networks_result-Keeps : (r : Option String) (d : Draft K) → Keeps f (networks_result b r d)
  unfolding networks_result
  networks_result-Keeps none d = Reads-Keeps f (raise-Reads _)
  networks_result-Keeps (some json) d = share-Keeps _

  add_network_annotation-Keeps :
      (ns : List NetworkElement) (d : Draft K) → Keeps f (add_network_annotation b ns d)
  unfolding add_network_annotation
  add_network_annotation-Keeps [] d = Reads-Keeps f (pure-Reads d)
  add_network_annotation-Keeps (n ∷ ns) d = networks_result-Keeps _ d

  data_result-Reads : (r : Option String) (d : Draft K) → Reads (data_result b r d)
  unfolding data_result
  data_result-Reads none d = search reads
  data_result-Reads (some json) d = search reads

  finish-Reads : (d : Draft K) → Reads (finish c b d)
  unfolding finish
  finish-Reads d = search (reads, data_result-Reads)

  pub build_vm_pod-Keeps : Keeps f (build_vm_pod c b)
  unfolding build_vm_pod
  build_vm_pod-Keeps = bind-Keeps f (Reads-Keeps f current-Reads) (λ vm.
      bind-Keeps f (share-Keeps _) (λ d.
        bind-Keeps f (Reads-Keeps f (add_vm_volumes-Reads c b vm _ _)) (λ e.
          bind-Keeps f (add_networks-Keeps vm _ _ _) (λ g.
            bind-Keeps f (add_network_annotation-Keeps _ g)
              (λ h. Reads-Keeps f (finish-Reads h))))))

  pub build_target_vm_pod-Keeps : Keeps f (build_target_vm_pod c b)
  unfolding build_target_vm_pod
  build_target_vm_pod-Keeps = bind-Keeps f build_vm_pod-Keeps (λ p.
      change_then-Keeps f (λ vm. shared_vm (receiving c b vm.meta.name p) vm)
        (λ vm. pure (receiving c b vm.meta.name p)) (λ vm. apart (receiving c b vm.meta.name p) vm)
        (λ vm. Reads-Keeps f (pure-Reads _)))
