-- ===== src/Api/External.antt =====
-- What the objects take from the Kubernetes API packages: opaque types, and the arithmetic of
-- resource quantities (k8s.io/apimachinery/pkg/api/resource).
use virtink.Prelude.{Option, Bool, String}
use virtink.Prelude.Int.{ℤ}

pub record Kube : Type 1 where
  pub Affinity : Type 0
  pub Toleration : Type 0
  pub Probe : Type 0
  pub Container : Type 0
  -- a volume source that the program only passes on
  pub OtherVolumeSource : Type 0
  pub Quantity : Type 0
  -- the quantity that a missing resource name reads as
  pub zero_quantity : Quantity
  pub is_zero : Quantity → Bool
  pub value : Quantity → ℤ
  -- `q.Cmp(r) < 0`
  pub less : Quantity → Quantity → Bool
  pub equal : Quantity → Quantity → Bool
  pub add : Quantity → Quantity → Quantity
  pub must_parse : String → Quantity
  pub new_quantity : ℤ → Quantity
  -- the affinity with a term that keeps pods with this label value of virtink.io/vm.name off one host
  pub keep_apart : Option Affinity → String → Affinity
