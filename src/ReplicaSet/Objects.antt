-- ===== src/ReplicaSet/Objects.antt =====
-- `VirtualMachineReplicaSet` of pkg/apis/virt/v1alpha1/types.go, and the label selectors that it stands on
-- (k8s.io/apimachinery/pkg/labels and metav1.LabelSelectorAsSelector).
use virtink.Prelude.{Bool, String, Option, List}
use virtink.Prelude.Int.{ℤ}
use virtink.Api.{Kube, ObjectMeta, VirtualMachineSpec, ConditionStatus}
use Prim.Native.String.{◌++◌ as str_append}

-- Labels, nil or a map
abbrev pub Labels : Type 0
Labels = Option (List (String × String))

pub record Selectors : Type 1 where
  pub LabelSelector : Type 0
  -- metav1.LabelSelectorAsSelector, with `Matches` of the selector that it gives; `none` is its error.
  pub as_selector : Option LabelSelector → Option (Labels → Bool)
  -- `labels.Set(required).AsSelectorPreValidated().Matches(labels)`
  pub set_matches : Labels → Labels → Bool

pub data VmrsConditionType : Type 0 where
  replica_failure paused : VmrsConditionType

-- `VirtualMachineReplicaSetCondition`, less its times
pub record VmrsCondition : Type 0 where
  pub type_name : VmrsConditionType
  pub status : ConditionStatus
  pub reason : String
  pub message : String

pub record VmTemplate (K : Kube) : Type 0 where
  pub meta : ObjectMeta
  pub spec : VirtualMachineSpec K

pub record VmrsSpec (K : Kube) (L : Selectors) : Type 0 where
  pub replicas : Option ℤ  -- int32
  pub paused : Bool
  pub selector : Option L.LabelSelector
  pub template : Option (VmTemplate K)

pub record VmrsStatus : Type 0 where
  pub replicas : ℤ
  pub ready_replicas : ℤ
  pub available_replicas : ℤ
  pub observed_generation : ℤ
  pub conditions : List VmrsCondition

pub record VirtualMachineReplicaSet (K : Kube) (L : Selectors) : Type 0 where
  pub meta : ObjectMeta
  pub spec : VmrsSpec K L
  pub status : VmrsStatus

-- `client.ObjectKeyFromObject(obj).String()`
abbrev pub object_key : ObjectMeta → String
object_key m = str_append m.namespace (str_append "/" m.name)
