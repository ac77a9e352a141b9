-- ===== src/Machine/Build/ClosedParts.antt =====
-- The parts of `buildVMPod` of pkg/controller/vm_controller.go that are neither volumes nor networks with a
-- definition keep the pod closed.
use virtink.Prelude.{
  ◌≡◌, refl, sym, ap, subst, ℕ, suc, ◌==◌, String, str_eq, Option, none, some, is_some, List, [],
  ◌∷◌, map, Bool, true, false, ◌||◌, All, if◌then◌else◌, Bool-cases, inl, inr,
}
use Prim.Native.String.{◌++◌ as str_append}
use virtink.Prelude.Map.{contains}
use virtink.Api.{
  Kube, VirtualMachine, ResourceRequirements, Interface, Kernel, FileSystem, Pod, PodVolume,
  empty_dir, empty_dir_on, Container,
}
use virtink.Machine.Monad.{VhostConfig}
use virtink.Machine.Ensures.{Ensures, pure-Ensures, raise-Ensures, if-Ensures}
use virtink.Machine.Build.Draft.{Draft, Builder, add_volume, add_mount, add_init, mount_at}
use virtink.Machine.Build.Networks.{
  add_settings, add_kube_ovn, add_sockets, add_userspace, add_vhost_user,
}
use virtink.Machine.Build.Assembly.{
  first_pod, first_draft, add_kernel, add_hugepages, add_block_volumes, mount_file_systems,
  share_resources, with_resources,
}
use virtink.Machine.Build.Closed.{
  IsClosed, ClosedDraft, AllNamed, Has, has_volume, add_volume-Closed, add_volume-Has,
  add_mount-Closed, add_mount-keeps, add_init-Closed, add_env-Closed, increment-Closed,
  set_label-Closed, set_annotation-Closed, select_node-Closed, share-Closed,
}

module _ {K : Kube} (b : Builder K) where
  pub first_draft-Closed : (vm : VirtualMachine K) → ClosedDraft (first_draft b vm)
  unfolding first_draft first_pod
  first_draft-Closed vm = set_label-Closed _ _ _ (
      increment-Closed _ _ (
        increment-Closed _ _
          (record { pod = record { mounts = (refl, (refl, tt)); devices = tt; inits = tt } })))

  settings_if-Closed :
      (test : Bool) (i : Container K) (d : Draft K)
      → AllNamed d.pod.spec.volumes i.mounts
      → ClosedDraft d
      → ClosedDraft (if test then add_init i d else d)
  settings_if-Closed true i d k h = add_init-Closed i d k h
  settings_if-Closed false i d k h = h

  pub add_settings-Closed :
      (index : ℕ) (i : Interface) (d : Draft K)
      → ClosedDraft d
      → ClosedDraft (add_settings b index i d)
  unfolding add_settings
  add_settings-Closed index i d h =
      settings_if-Closed (is_some i.binding.bridge) _ _ tt
        (settings_if-Closed (is_some i.binding.masquerade) _ d tt h)

module _ {K : Kube} where
  pub add_kernel-Closed :
      (k : Option Kernel) (d : Draft K) → ClosedDraft d → ClosedDraft (add_kernel k d)
  unfolding add_kernel add_mount
  add_kernel-Closed none d h = h
  add_kernel-Closed (some k) d h =
      add_init-Closed _
        (add_mount (mount_at "virtink-kernel" "/mnt/virtink-kernel")
          (add_volume "virtink-kernel" empty_dir d))
        (add_volume-Has "virtink-kernel" empty_dir d, tt)
        (add_mount-Closed _ (add_volume "virtink-kernel" empty_dir d)
          (add_volume-Has "virtink-kernel" empty_dir d)
          (add_volume-Closed "virtink-kernel" empty_dir d h))

  pub add_hugepages-Closed :
      (test : Bool) (d : Draft K) → ClosedDraft d → ClosedDraft (add_hugepages test d)
  unfolding add_hugepages
  add_hugepages-Closed false d h = h
  add_hugepages-Closed true d h =
      add_mount-Closed _ _ (add_volume-Has "hugepages" (empty_dir_on "HugePages") d)
        (add_volume-Closed "hugepages" (empty_dir_on "HugePages") d h)

  add_kube_ovn-Closed :
      (i : Interface) (cfg : VhostConfig) (d : Draft K)
      → ClosedDraft d
      → ClosedDraft (add_kube_ovn i cfg d)
  unfolding add_kube_ovn
  add_kube_ovn-Closed i cfg d h = add_env-Closed _ _ _ (
      add_env-Closed _ _ _ (
        add_mount-Closed _ _ (add_volume-Has cfg.socket_volume_name empty_dir _) (
          add_volume-Closed cfg.socket_volume_name empty_dir _
            (set_annotation-Closed _ _ _ (select_node-Closed _ _ d h)))))

  add_sockets-Closed : (d : Draft K) → ClosedDraft d → ClosedDraft (add_sockets d)
  add_sockets-Closed d h = add_env-Closed _ _ _ (
      add_env-Closed _ _ _ (
        add_mount-Closed _ _ (add_volume-Has "vhost-user-sockets" _ d)
          (add_volume-Closed "vhost-user-sockets" _ d h)))

  sockets_if-Closed :
      (test : Bool) (d : Draft K) → ClosedDraft d → ClosedDraft (if test then add_sockets d else d)
  sockets_if-Closed true d h = add_sockets-Closed d h
  sockets_if-Closed false d h = h

  add_userspace-Closed : (d : Draft K) → ClosedDraft d → ClosedDraft (add_userspace d)
  unfolding add_userspace
  add_userspace-Closed d h =
      sockets_if-Closed (d.userspace_interfaces == 0)
        (record d { userspace_interfaces = suc d.userspace_interfaces }) (record { pod = h.pod })

  pub add_vhost_user-Closed :
      (i : Interface) (cfg : Option VhostConfig) (d : Draft K)
      → ClosedDraft d
      → Ensures ClosedDraft (add_vhost_user i cfg d)
  unfolding add_vhost_user
  add_vhost_user-Closed i none d h = raise-Ensures _
  add_vhost_user-Closed i (some cfg) d h =
      if-Ensures _ (share-Closed _ (add_kube_ovn-Closed i cfg d h))
        (if-Ensures _ (pure-Ensures _ (add_userspace-Closed d h)) (raise-Ensures _))

  pub block_volumes-Closed :
      (vs : List String) (d : Draft K) → ClosedDraft d → ClosedDraft (add_block_volumes vs d)
  block_volumes-Closed [] d h = h
  block_volumes-Closed (v ∷ vs) d h = add_env-Closed _ _ d h

  pub contains-map :
      (vs : List (PodVolume K)) (name : String)
      → contains (map (λ v. v.name) vs) name ≡ has_volume vs name
  contains-map [] name = refl
  contains-map (v ∷ vs) name = ap (λ r. str_eq v.name name || r) (contains-map vs name)

  pub file_systems-Closed :
      (names : List String) (fs : List FileSystem) (d : Draft K)
      → ((n : String) → contains names n ≡ true → Has d n)
      → ClosedDraft d
      → ClosedDraft (mount_file_systems names fs d)
  unfolding mount_file_systems
  file_systems-Closed names [] d k h = h
  file_systems-Closed names (f ∷ fs) d k h = elim (Bool-cases (contains names f.name)) [
    | inl e ↦
        subst
          (λ t. ClosedDraft (
            mount_file_systems names fs
              (if t then add_mount (mount_at f.name (str_append "/mnt/" f.name)) d else d)))
          (sym e)
          (file_systems-Closed names fs _ (λ n m. add_mount-keeps _ d n (k n m))
            (add_mount-Closed _ d (k f.name e) h))
    | inr e ↦
        subst
          (λ t. ClosedDraft (
            mount_file_systems names fs
              (if t then add_mount (mount_at f.name (str_append "/mnt/" f.name)) d else d)))
          (sym e) (file_systems-Closed names fs d k h)
  ]

  share_resources-All :
      (vs : List (PodVolume K)) (r : ResourceRequirements K) (is : List (Container K))
      → All (λ i. AllNamed vs i.mounts) is
      → All (λ i. AllNamed vs i.mounts) (share_resources r is)
  share_resources-All vs r [] h = tt
  share_resources-All vs r (i ∷ is) h = (h.0, share_resources-All vs r is h.1)

  pub with_resources-Closed :
      (vm : VirtualMachine K) (p : Pod K) → IsClosed p → IsClosed (with_resources vm p)
  unfolding with_resources
  with_resources-Closed vm p h = record {
    mounts = h.mounts;
    devices = h.devices;
    inits = share_resources-All p.spec.volumes vm.spec.resources p.spec.init_containers h.inits;
  }
