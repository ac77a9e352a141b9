-- ===== src/Machine/Build/ClosedVolumes.antt =====
-- The volumes of a machine keep its pod closed: the loop over `vm.Spec.Volumes` in `buildVMPod` of
-- pkg/controller/vm_controller.go.
use virtink.Prelude.{
  ◌++◌, String, Option, none, some, List, [], ◌∷◌, Bool, true, false, if◌then◌else◌,
}
use Prim.Native.String.{◌++◌ as str_append}
use virtink.Api.{
  Kube, VirtualMachine, Volume, is_hotpluggable, pvc_name, ContainerDiskVolumeSource,
  CloudInitVolumeSource, ContainerRootfsVolumeSource, claim, empty_dir, secret, Container,
}
use virtink.Machine.Monad.{Cluster}
use virtink.Machine.Ensures.{
  Ensures, bind-Ensures, after-Ensures, pure-Ensures, if-Ensures, then-Ensures,
}
use virtink.Machine.Build.Draft.{
  Draft, Builder, add_volume, add_mount, add_device, add_init, mount_at,
}
use virtink.Machine.Build.Volumes.{
  CloudData, inline, from_secret, filled_volume, add_container_disk, add_container_rootfs,
  add_cloud_init, user_data, network_data, user_mounts, network_data_path, add_user_secret,
  add_network_secret, note_block, add_claim_volume, add_source, add_vm_volume, add_vm_volumes,
}
use virtink.Machine.Build.Closed.{
  ClosedDraft, AllNamed, Has, add_volume-Closed, add_volume-Has, add_volume-keeps, add_mount-Closed,
  add_mount-keeps, add_device-Closed, add_init-Closed,
}

module _ {K : Kube} where
  -- The init container mounts volumes that were there, and then the new one.
  filled_volume-Closed :
      (name : String) (i : Container K) (d : Draft K)
      → AllNamed (add_volume name empty_dir d).pod.spec.volumes i.mounts
      → ClosedDraft d
      → ClosedDraft (filled_volume name i d)
  unfolding add_mount add_init
  filled_volume-Closed name i d k h =
      add_init-Closed i
        (add_mount (mount_at name (str_append "/mnt/" name)) (add_volume name empty_dir d)) k
        (add_mount-Closed _ (add_volume name empty_dir d) (add_volume-Has name empty_dir d)
          (add_volume-Closed name empty_dir d h))

  add_container_disk-Closed :
      (name : String) (s : ContainerDiskVolumeSource) (d : Draft K)
      → ClosedDraft d
      → ClosedDraft (add_container_disk name s d)
  unfolding add_container_disk
  add_container_disk-Closed name s d h =
      filled_volume-Closed name _ d (add_volume-Has name empty_dir d, tt) h

  add_container_rootfs-Closed :
      (name : String) (s : ContainerRootfsVolumeSource K) (d : Draft K)
      → ClosedDraft d
      → ClosedDraft (add_container_rootfs name s d)
  unfolding add_container_rootfs
  add_container_rootfs-Closed name s d h =
      filled_volume-Closed name _ d (add_volume-Has name empty_dir d, tt) h

module _ {K : Kube} (b : Builder K) where
  user_secret-Closed :
      (u : CloudData) (d : Draft K) → ClosedDraft d → ClosedDraft (add_user_secret b u d)
  user_secret-Closed (inline t) d h = h
  user_secret-Closed (from_secret n) d h = add_volume-Closed _ (secret n) d h

  network_secret-Closed :
      (u : CloudData) (d : Draft K) → ClosedDraft d → ClosedDraft (add_network_secret b u d)
  network_secret-Closed (inline t) d h = h
  network_secret-Closed (from_secret n) d h =
      add_mount-Closed _ (add_volume _ (secret n) d) (add_volume-Has _ (secret n) d)
        (add_volume-Closed _ (secret n) d h)

  network_secret-keeps :
      (u : CloudData) (d : Draft K) (name : String)
      → Has d name
      → Has (add_network_secret b u d) name
  network_secret-keeps (inline t) d name h = h
  network_secret-keeps (from_secret n) d name h =
      add_mount-keeps (mount_at "virtink-cloud-init-network-data" (network_data_path b))
        (add_volume "virtink-cloud-init-network-data" (secret n) d) name
        (add_volume-keeps "virtink-cloud-init-network-data" name (secret n) d h)

  init_mounts-AllNamed :
      (u w : CloudData) (name : String) (d : Draft K)
      → AllNamed
          (add_volume name empty_dir
            (add_network_secret b w (add_user_secret b u d))).pod.spec.volumes
          (user_mounts b u ++ (mount_at name (str_append "/mnt/" name) ∷ []))
  init_mounts-AllNamed (inline t) w name d =
      (add_volume-Has name empty_dir (add_network_secret b w d), tt)
  init_mounts-AllNamed (from_secret n) w name d = (
    add_volume-keeps name "virtink-cloud-init-user-data" empty_dir _ (
        network_secret-keeps w (add_volume "virtink-cloud-init-user-data" (secret n) d)
          "virtink-cloud-init-user-data"
          (add_volume-Has "virtink-cloud-init-user-data" (secret n) d)),
    (
      add_volume-Has name empty_dir (add_network_secret b w (add_user_secret b (from_secret n) d)),
      tt,
    ),
  )

  add_cloud_init-Closed :
      (vm : VirtualMachine K) (name : String) (s : CloudInitVolumeSource) (d : Draft K)
      → ClosedDraft d
      → ClosedDraft (add_cloud_init b vm name s d)
  unfolding add_cloud_init
  add_cloud_init-Closed vm name s d h =
      filled_volume-Closed name _
        (add_network_secret b (network_data b s) (add_user_secret b (user_data b s) d))
        (init_mounts-AllNamed (user_data b s) (network_data b s) name d)
        (network_secret-Closed (network_data b s) _ (user_secret-Closed (user_data b s) d h))

module _ {K : Kube} (c : Cluster K) where
  note_block-Closed :
      (v : Volume K) (block : Bool) (d : Draft K)
      → ClosedDraft d
      → ClosedDraft (note_block c v block d)
  note_block-Closed v true d h = record { pod = h.pod }
  note_block-Closed v false d h = h

  claim_mount-Closed :
      (hotplug block : Bool) (v : Volume K) (d : Draft K)
      → ClosedDraft d
      → let m = mount_at v.name (str_append "/mnt/" v.name) in
        let e = add_volume v.name (claim (pvc_name v)) d in
        ClosedDraft (if hotplug then d else if block then add_device m e else add_mount m e)
  claim_mount-Closed true block v d h = h
  claim_mount-Closed false true v d h =
      add_device-Closed _ _ (add_volume-Has v.name _ d)
        (add_volume-Closed v.name (claim (pvc_name v)) d h)
  claim_mount-Closed false false v d h =
      add_mount-Closed _ _ (add_volume-Has v.name _ d)
        (add_volume-Closed v.name (claim (pvc_name v)) d h)

  add_claim_volume-Closed :
      (namespace : String) (v : Volume K) (d : Draft K)
      → ClosedDraft d
      → Ensures ClosedDraft (add_claim_volume c namespace v d)
  unfolding add_claim_volume
  add_claim_volume-Closed namespace v d h = after-Ensures _ _ (λ ready. then-Ensures _ (
      after-Ensures _ _ (λ block.
        pure-Ensures _
          (claim_mount-Closed (is_hotpluggable v) block v _ (note_block-Closed v block d h)))))

module _ {K : Kube} (c : Cluster K) (b : Builder K) where
  add_source-Closed :
      (disk : Option ContainerDiskVolumeSource) (init : Option CloudInitVolumeSource)
      (rootfs : Option (ContainerRootfsVolumeSource K)) (vm : VirtualMachine K) (v : Volume K)
      (d : Draft K)
      → ClosedDraft d
      → Ensures ClosedDraft (add_source c b disk init rootfs vm v d)
  unfolding add_source
  add_source-Closed (some s) init rootfs vm v d h =
      pure-Ensures _ (add_container_disk-Closed v.name s d h)
  add_source-Closed none (some s) rootfs vm v d h =
      pure-Ensures _ (add_cloud_init-Closed b vm v.name s d h)
  add_source-Closed none none (some s) vm v d h =
      pure-Ensures _ (add_container_rootfs-Closed v.name s d h)
  add_source-Closed none none none vm v d h =
      if-Ensures _ (add_claim_volume-Closed c vm.meta.namespace v d h) (pure-Ensures d h)

  pub add_vm_volumes-Closed :
      (vm : VirtualMachine K) (vs : List (Volume K)) (d : Draft K)
      → ClosedDraft d
      → Ensures ClosedDraft (add_vm_volumes c b vm vs d)
  unfolding add_vm_volumes add_vm_volume
  add_vm_volumes-Closed vm [] d h = pure-Ensures d h
  add_vm_volumes-Closed vm (v ∷ vs) d h =
      bind-Ensures (add_source-Closed _ _ _ vm v d h) (λ e k. add_vm_volumes-Closed vm vs e k)
