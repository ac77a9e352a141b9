-- ===== src/Api/Pods.antt =====
-- Pods and claims (k8s.io/api/core/v1), with the fields that the program reads and writes. A pod of a
-- machine has one container of the program's own, and after it the sidecars of the machine.
use virtink.Prelude.{Bool, String, Option, none, List, [], ℕ, ◌==◌}
use virtink.Prelude.Int.{pos}
use virtink.Api.External.{Kube}
use virtink.Api.Enums.{ConditionStatus}
use virtink.Api.Spec.{PodVolume, ResourceRequirements}
use virtink.Api.Objects.{ObjectMeta}

pub data PodPhase : Type 0 where
  unset pending running succeeded failed unknown : PodPhase

abbrev pod_phase_code : PodPhase → ℕ
pod_phase_code PodPhase.unset = 0
pod_phase_code PodPhase.pending = 1
pod_phase_code PodPhase.running = 2
pod_phase_code PodPhase.succeeded = 3
pod_phase_code PodPhase.failed = 4
pod_phase_code PodPhase.unknown = 5

abbrev pub pod_phase_eq : PodPhase → PodPhase → Bool
pod_phase_eq a b = pod_phase_code a == pod_phase_code b

-- corev1.PodCondition
pub record PodCondition : Type 0 where
  pub type_name : String
  pub status : ConditionStatus
  pub reason : String
  pub message : String

pub record VolumeMount : Type 0 where
  pub name : String
  pub mount_path : String

-- The value of a variable of the environment: a text, or a field of the pod.
pub data EnvSource : Type 0 where
  value : String → EnvSource
  field_ref : String → EnvSource

pub record EnvVar : Type 0 where
  pub name : String
  pub source : EnvSource

pub record Container (K : Kube) : Type 0 where
  pub name : String
  pub image : String
  pub image_pull_policy : String
  pub command : List String
  pub args : List String
  pub env : List EnvVar
  pub resources : ResourceRequirements K
  pub mounts : List VolumeMount
  pub devices : List VolumeMount
  pub liveness_probe : Option K.Probe
  pub readiness_probe : Option K.Probe

pub record PodSpec (K : Kube) : Type 0 where
  pub node_name : String
  pub node_selector : Option (List (String × String))
  -- the values of kubernetes.io/hostname that the program requires, if it does
  pub required_hosts : Option (List String)
  pub affinity : Option K.Affinity
  pub tolerations : List K.Toleration
  pub init_containers : List (Container K)
  pub container : Container K
  pub sidecars : List K.Container
  pub volumes : List (PodVolume K)

pub record PodStatus : Type 0 where
  pub phase : PodPhase
  pub conditions : List PodCondition

pub record Pod (K : Kube) : Type 0 where
  pub meta : ObjectMeta
  pub generate_name : String
  pub spec : PodSpec K
  pub status : PodStatus

pub data VolumeMode : Type 0 where
  block filesystem : VolumeMode

pub data ClaimPhase : Type 0 where
  unset pending bound lost : ClaimPhase

-- corev1.PersistentVolumeClaim
pub record Claim : Type 0 where
  pub meta : ObjectMeta
  pub volume_mode : Option VolumeMode
  pub phase : ClaimPhase

abbrev pub empty_meta : ObjectMeta
empty_meta = record {
  name = "";
  namespace = "";
  uid = "";
  labels = none;
  annotations = none;
  creation_timestamp = 0;
  deletion_timestamp = none;
  generation = pos 0;
  finalizers = [];
  controller = none;
}

abbrev pub empty_resources : {K : Kube} → ResourceRequirements K
empty_resources = record { requests = none; limits = none }

abbrev pub unset_status : PodStatus
unset_status = record { phase = PodPhase.unset; conditions = [] }
