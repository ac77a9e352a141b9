-- ===== src/Machine/Build/Volumes.antt =====
-- What the volumes of a machine add to its pod: the loop over `vm.Spec.Volumes` in `buildVMPod` of
-- pkg/controller/vm_controller.go.
use virtink.Prelude.{
  Bool, true, false, not, ◌||◌, String, str_eq, Option, none, some, is_some, List, [], ◌∷◌, ◌++◌,
  if◌then◌else◌,
}
use Prim.Native.String.{◌++◌ as str_append}
use virtink.Api.{
  Kube, VirtualMachine, Volume, is_hotpluggable, pvc_name, ContainerDiskVolumeSource,
  CloudInitVolumeSource, ContainerRootfsVolumeSource, empty_dir, secret, claim, Claim, ClaimPhase,
  Container, VolumeMount, empty_resources,
}
use virtink.Machine.Monad.{Cluster, M, ◌>>=◌, ◌>>◌, pure, raise, requeue_later}
use virtink.Machine.Claims.{get_pvc, is_ready, is_block}
use virtink.Machine.Build.Draft.{
  Draft, Builder, add_volume, add_mount, add_device, add_init, mount_at, format_int,
}

-- An init container. Its resources are those of the machine, whose maps may still be written: they are
-- filled in at the end.
abbrev pub init_container :
    (K : Kube)
    → String
    → String
    → String
    → List String
    → List String
    → List VolumeMount
    → Container K
init_container K name image policy command args mounts = record {
  name = name;
  image = image;
  image_pull_policy = policy;
  command = command;
  args = args;
  env = [];
  resources = empty_resources;
  mounts = mounts;
  devices = [];
  liveness_probe = none;
  readiness_probe = none;
}

-- A text that is given, or given in base64, or kept in a secret.
pub data CloudData : Type 0 where
  inline : String → CloudData
  from_secret : String → CloudData

abbrev first_given : String → String → CloudData
first_given base64 secret_name =
    if not (str_eq base64 "")
    then inline base64
    else if not (str_eq secret_name "")
    then from_secret secret_name
    else inline ""

abbrev pub init_name : String → String
init_name name = str_append "init-volume-" name

module _ {K : Kube} where
  -- A volume of the machine that an init container fills: an empty directory that both mount.
  abbrev pub filled_volume : String → Container K → Draft K → Draft K
  filled_volume name i d =
      add_init i (add_mount (mount_at name (str_append "/mnt/" name)) (add_volume name empty_dir d))

  unfoldable pub add_container_disk : String → ContainerDiskVolumeSource → Draft K → Draft K
  add_container_disk name s d =
      let m = mount_at name (str_append "/mnt/" name) in
      filled_volume name
        (init_container K (init_name name) s.image s.image_pull_policy []
          (str_append m.mount_path "/disk.raw" ∷ []) (m ∷ []))
        d

  unfoldable pub add_container_rootfs : String → ContainerRootfsVolumeSource K → Draft K → Draft K
  unfolding format_int
  add_container_rootfs name s d =
      let m = mount_at name (str_append "/mnt/" name) in
      filled_volume name
        (init_container K (init_name name) s.image s.image_pull_policy []
          (str_append m.mount_path "/rootfs.raw" ∷ format_int (K.value s.size) ∷ []) (m ∷ []))
        d

module _ {K : Kube} (b : Builder K) where
  unfoldable pub user_data : CloudInitVolumeSource → CloudData
  user_data s =
      if not (str_eq s.user_data "")
      then inline (b.encode s.user_data)
      else first_given s.user_data_base64 s.user_data_secret_name

  unfoldable pub network_data : CloudInitVolumeSource → CloudData
  network_data s =
      if not (str_eq s.network_data "")
      then inline (b.encode s.network_data)
      else first_given s.network_data_base64 s.network_data_secret_name

  abbrev pub data_argument : CloudData → String → String
  data_argument (inline text) path = text
  data_argument (from_secret name) path = str_append path "/value"

  abbrev pub user_data_path : String
  user_data_path = "/mnt/virtink-cloud-init-user-data"

  abbrev pub network_data_path : String
  network_data_path = "/mnt/virtink-cloud-init-network-data"

  abbrev pub user_mounts : CloudData → List VolumeMount
  user_mounts (inline text) = []
  user_mounts (from_secret name) = mount_at "virtink-cloud-init-user-data" user_data_path ∷ []

  abbrev pub add_user_secret : CloudData → Draft K → Draft K
  add_user_secret (inline text) d = d
  add_user_secret (from_secret name) d = add_volume "virtink-cloud-init-user-data" (secret name) d

  -- The volume with the network data is mounted by the main container.
  abbrev pub add_network_secret : CloudData → Draft K → Draft K
  add_network_secret (inline text) d = d
  add_network_secret (from_secret name) d =
      add_mount (mount_at "virtink-cloud-init-network-data" network_data_path)
        (add_volume "virtink-cloud-init-network-data" (secret name) d)

  abbrev pub instance_data : VirtualMachine K → String
  instance_data vm =
      str_append "instance-id: "
        (str_append vm.meta.uid (str_append "\nlocal-hostname: " vm.meta.name))

  unfoldable pub add_cloud_init :
      VirtualMachine K → String → CloudInitVolumeSource → Draft K → Draft K
  unfolding user_data network_data
  add_cloud_init vm name s d =
      let user = user_data s in
      let network = network_data s in
      let m = mount_at name (str_append "/mnt/" name) in
      filled_volume name
        (init_container K (init_name name) (d.pod.spec.container.image) "" ("virt-init-volume" ∷ [])
          ("cloud-init"
            ∷ b.encode (instance_data vm)
            ∷ data_argument user user_data_path
            ∷ data_argument network network_data_path
            ∷ str_append m.mount_path "/cloud-init.iso"
            ∷ [])
          (user_mounts user ++ (m ∷ [])))
        (add_network_secret network (add_user_secret user d))

abbrev is_pending : ClaimPhase → Bool
is_pending ClaimPhase.pending = true
is_pending ClaimPhase.unset = false
is_pending ClaimPhase.bound = false
is_pending ClaimPhase.lost = false

module _ {K : Kube} (c : Cluster K) where
  unfoldable pub requeue_unless_pending : Option Claim → M K (Unit {0})
  requeue_unless_pending none = pure tt
  requeue_unless_pending (some p) = if is_pending p.phase then pure tt else raise (requeue_later 60)

  -- A data volume whose claim is pending waits for its first consumer, and is let through.
  unfoldable pub check_ready : String → Volume K → Bool → M K (Unit {0})
  unfolding get_pvc requeue_unless_pending
  check_ready namespace v true = pure tt
  check_ready namespace v false =
      if is_some v.source.data_volume
      then (do p ← get_pvc c namespace v; requeue_unless_pending p)
      else raise (requeue_later 60)

  abbrev pub add_claim : Volume K → Bool → Draft K → Draft K
  add_claim v block d =
      let m = mount_at v.name (str_append "/mnt/" v.name) in
      let e = add_volume v.name (claim (pvc_name v)) d in
      if is_hotpluggable v then d else if block then add_device m e else add_mount m e

  abbrev pub note_block : Volume K → Bool → Draft K → Draft K
  note_block v block d =
      if block then record d { block_volumes = d.block_volumes ++ (v.name ∷ []) } else d

  unfoldable pub add_claim_volume : String → Volume K → Draft K → M K (Draft K)
  unfolding is_ready check_ready is_block
  add_claim_volume namespace v d = do
    ready ← is_ready c namespace v
    check_ready namespace v ready
    block ← is_block c namespace v
    pure (add_claim v block (note_block v block d))

module _ {K : Kube} (c : Cluster K) (b : Builder K) where
  -- The first source that the volume has, in this order.
  unfoldable pub add_source :
      Option ContainerDiskVolumeSource
      → Option CloudInitVolumeSource
      → Option (ContainerRootfsVolumeSource K)
      → VirtualMachine K
      → Volume K
      → Draft K
      → M K (Draft K)
  unfolding add_container_disk add_cloud_init add_container_rootfs add_claim_volume
  add_source (some s) init rootfs vm v d = pure (add_container_disk v.name s d)
  add_source none (some s) rootfs vm v d = pure (add_cloud_init b vm v.name s d)
  add_source none none (some s) vm v d = pure (add_container_rootfs v.name s d)
  add_source none none none vm v d =
      if is_some v.source.persistent_volume_claim || is_some v.source.data_volume
      then add_claim_volume c vm.meta.namespace v d
      else pure d

  unfoldable pub add_vm_volume : VirtualMachine K → Volume K → Draft K → M K (Draft K)
  unfolding add_source
  add_vm_volume vm v d =
      add_source v.source.container_disk v.source.cloud_init v.source.container_rootfs vm v d

  unfoldable pub add_vm_volumes : VirtualMachine K → List (Volume K) → Draft K → M K (Draft K)
  unfolding add_vm_volume
  add_vm_volumes vm [] d = pure d
  add_vm_volumes vm (v ∷ vs) d = do e ← add_vm_volume vm v d; add_vm_volumes vm vs e
