-- ===== src/Api/Spec.antt =====
-- The specification of a virtual machine (pkg/apis/virt/v1alpha1/types.go). A pointer field is an
-- `Option`, a map an association list, and a map that may be nil an `Option` of one.
use virtink.Prelude.{ℕ, Bool, false, ◌||◌, String, Option, none, some, List}
use virtink.Prelude.Int.{ℤ}
use virtink.Api.External.{Kube}
use virtink.Api.Enums.{RunPolicy}

pub record Cpu : Type 0 where
  pub sockets : ℕ  -- uint32
  pub cores_per_socket : ℕ  -- uint32
  pub dedicated_cpu_placement : Bool

pub record Hugepages : Type 0 where
  pub page_size : String

pub record Memory (K : Kube) : Type 0 where
  pub size : K.Quantity
  pub hugepages : Option Hugepages

pub record Kernel : Type 0 where
  pub image : String
  pub image_pull_policy : String
  pub cmdline : String

pub record Console : Type 0 where
  pub mode : String
  pub file : String
  pub socket : String
  pub iommu : Bool

pub record Disk : Type 0 where
  pub name : String
  pub read_only : Option Bool

pub record FileSystem : Type 0 where
  pub name : String

pub record InterfaceMasquerade : Type 0 where
  pub cidr : String

pub record InterfaceVdpa : Type 0 where
  pub num_queues : ℤ
  pub iommu : Bool

pub record InterfaceBindingMethod : Type 0 where
  pub bridge : Option (Unit {0})
  pub masquerade : Option InterfaceMasquerade
  pub sriov : Option (Unit {0})
  pub vdpa : Option InterfaceVdpa
  pub vhost_user : Option (Unit {0})

pub record Interface : Type 0 where
  pub name : String
  pub mac : String
  pub binding : InterfaceBindingMethod

pub record ContainerDiskVolumeSource : Type 0 where
  pub image : String
  pub image_pull_policy : String

pub record CloudInitVolumeSource : Type 0 where
  pub user_data : String
  pub user_data_base64 : String
  pub user_data_secret_name : String
  pub network_data : String
  pub network_data_base64 : String
  pub network_data_secret_name : String

pub record ContainerRootfsVolumeSource (K : Kube) : Type 0 where
  pub image : String
  pub image_pull_policy : String
  pub size : K.Quantity

pub record PersistentVolumeClaimVolumeSource : Type 0 where
  pub hotpluggable : Bool
  pub claim_name : String

pub record DataVolumeVolumeSource : Type 0 where
  pub hotpluggable : Bool
  pub volume_name : String

pub record VolumeSource (K : Kube) : Type 0 where
  pub container_disk : Option ContainerDiskVolumeSource
  pub cloud_init : Option CloudInitVolumeSource
  pub container_rootfs : Option (ContainerRootfsVolumeSource K)
  pub persistent_volume_claim : Option PersistentVolumeClaimVolumeSource
  pub data_volume : Option DataVolumeVolumeSource

pub record Volume (K : Kube) : Type 0 where
  pub name : String
  pub source : VolumeSource K

abbrev pvc_hotpluggable : Option PersistentVolumeClaimVolumeSource → Bool
pvc_hotpluggable none = false
pvc_hotpluggable (some s) = s.hotpluggable

abbrev data_volume_hotpluggable : Option DataVolumeVolumeSource → Bool
data_volume_hotpluggable none = false
data_volume_hotpluggable (some s) = s.hotpluggable

unfoldable pub is_hotpluggable : {K : Kube} → Volume K → Bool
is_hotpluggable v =
    pvc_hotpluggable v.source.persistent_volume_claim
    || data_volume_hotpluggable v.source.data_volume

-- The name of the claim behind a volume.
unfoldable pub pvc_name : {K : Kube} → Volume K → String
pvc_name v = elim v.source.persistent_volume_claim [
  | some s ↦ s.claim_name
  | none ↦ elim v.source.data_volume [ some s ↦ s.volume_name | none ↦ "" ]
]

pub record MultusNetworkSource : Type 0 where
  pub network_name : String

pub record NetworkSource : Type 0 where
  pub pod : Option (Unit {0})
  pub multus : Option MultusNetworkSource

pub record Network : Type 0 where
  pub name : String
  pub source : NetworkSource

-- corev1.ResourceRequirements, less the claims that the program does not read
pub record ResourceRequirements (K : Kube) : Type 0 where
  pub requests : Option (List (String × K.Quantity))
  pub limits : Option (List (String × K.Quantity))

pub record Instance (K : Kube) : Type 0 where
  pub cpu : Cpu
  pub memory : Memory K
  pub kernel : Option Kernel
  pub console : Option Console
  pub serial : Option Console
  pub disks : List Disk
  pub file_systems : List FileSystem
  pub interfaces : List Interface

-- corev1.Volume, with the sources that the program writes
pub data PodVolumeSource (K : Kube) : Type 0 where
  empty_dir : PodVolumeSource K
  empty_dir_on : String → PodVolumeSource K
  secret : String → PodVolumeSource K
  claim : String → PodVolumeSource K
  host_path : String → PodVolumeSource K
  other_source : K.OtherVolumeSource → PodVolumeSource K

pub record PodVolume (K : Kube) : Type 0 where
  pub name : String
  pub source : PodVolumeSource K

pub record VirtualMachineSpec (K : Kube) : Type 0 where
  pub node_selector : Option (List (String × String))
  pub affinity : Option K.Affinity
  pub tolerations : List K.Toleration
  pub resources : ResourceRequirements K
  pub liveness_probe : Option K.Probe
  pub readiness_probe : Option K.Probe
  pub run_policy : RunPolicy
  pub instance_spec : Instance K
  pub volumes : List (Volume K)
  pub networks : List Network
  pub sidecars : List K.Container
  pub sidecar_volumes : List (PodVolume K)
