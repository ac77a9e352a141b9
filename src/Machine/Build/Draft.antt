-- ===== src/Machine/Build/Draft.antt =====
-- The pod under construction in `buildVMPod` of pkg/controller/vm_controller.go, and what the code does to
-- it. The pod takes over maps of the machine by reference: its labels, annotations, node selector,
-- resources and affinity. What is written to one of them is written to the machine as well, unless the
-- machine has none. The maps of the pod are kept in the draft, and `share` writes them back.
use virtink.Prelude.{
  ℕ, zero, suc, ltb, ◌/◌, ◌%◌, String, Option, none, some, List, [], ◌∷◌, ◌++◌, if◌then◌else◌,
}
use Prim.Native.String.{◌++◌ as str_append}
use virtink.Prelude.Int.{ℤ, pos, negsuc, ◌+ℤ◌, wrap64}
use virtink.Prelude.Map.{lookup, insert}
use virtink.Prelude.Text.{digit_at, hex_digits}
use virtink.Api.{
  Kube, VirtualMachine, VirtualMachineSpec, ObjectMeta, Pod, PodSpec, PodVolumeSource, Container,
  VolumeMount, EnvSource,
}
use virtink.Machine.Monad.{M, ◌>>=◌, ◌>>◌, pure, current, put}

-- netv1.NetworkSelectionElement
pub record NetworkElement : Type 0 where
  pub name : String
  pub interface_request : String
  pub mac_request : String

-- What the code takes from its configuration and from packages: the image of the prerunner, base64,
-- JSON, and the name of the annotation with the status of the networks.
pub record Builder (K : Kube) : Type 0 where
  pub image : String
  pub encode : String → String
  pub marshal_vm : VirtualMachine K → Option String
  pub marshal_networks : List NetworkElement → Option String
  pub network_status_annotation : String

pub record Draft (K : Kube) : Type 0 where
  pub pod : Pod K
  pub block_volumes : List String
  pub networks : List NetworkElement
  pub userspace_interfaces : ℕ

digit : ℕ → String
unfolding digit_at
digit n = digit_at n hex_digits

-- The fuel n is enough: a number below 10 ^ k needs k steps.
abbrev decimal_on : ℕ → ℕ → String
decimal_on zero n = digit (n % 10)
decimal_on (suc fuel) n =
    let rest = decimal_on fuel (n / 10) in
    if ltb n 10 then digit n else str_append rest (digit (n % 10))

-- strconv.FormatInt to base 10
unfoldable pub decimal : ℕ → String
unfolding digit
decimal n = decimal_on n n

unfoldable pub format_int : ℤ → String
unfolding decimal
format_int (pos n) = decimal n
format_int (negsuc n) = str_append "-" (decimal (suc n))

abbrev pub mount_at : String → String → VolumeMount
mount_at name path = record { name = name; mount_path = path }

abbrev pub map_or_empty {ℓ} : {V : Type ℓ} → Option (List (String × V)) → List (String × V)
map_or_empty none = []
map_or_empty (some m) = m

abbrev written {ℓ} : {A : Type ℓ} → Option A → Option A → Option A
written none new = none
written (some old) new = new

abbrev quantity_or_zero : (K : Kube) → Option K.Quantity → K.Quantity
quantity_or_zero K none = K.zero_quantity
quantity_or_zero K (some q) = q

abbrev increment :
    (K : Kube) → String → Option (List (String × K.Quantity)) → Option (List (String × K.Quantity))
increment K name m =
    let old = K.value (quantity_or_zero K (lookup name (map_or_empty m))) in
    some (insert name (K.must_parse (format_int (wrap64 (old +ℤ pos 1)))) (map_or_empty m))

module _ {K : Kube} where
  abbrev on_pod : Draft K → Pod K → Draft K
  on_pod d p = record d { pod = p }

  abbrev on_spec : Draft K → PodSpec K → Draft K
  on_spec d s = on_pod d (record (d.pod) { spec = s })

  abbrev on_container : Draft K → Container K → Draft K
  on_container d k = on_spec d (record (d.pod.spec) { container = k })

  unfoldable pub add_volume : String → PodVolumeSource K → Draft K → Draft K
  add_volume name source d = on_spec d (record (d.pod.spec) {
    volumes = d.pod.spec.volumes ++ (record { name = name; source = source } ∷ []);
  })

  unfoldable pub add_mount : VolumeMount → Draft K → Draft K
  add_mount m d =
      on_container d
        (record (d.pod.spec.container) { mounts = d.pod.spec.container.mounts ++ (m ∷ []) })

  unfoldable pub add_device : VolumeMount → Draft K → Draft K
  add_device m d =
      on_container d
        (record (d.pod.spec.container) { devices = d.pod.spec.container.devices ++ (m ∷ []) })

  unfoldable pub add_env : String → EnvSource → Draft K → Draft K
  add_env name source d = on_container d (record (d.pod.spec.container) {
    env = d.pod.spec.container.env ++ (record { name = name; source = source } ∷ []);
  })

  unfoldable pub add_init : Container K → Draft K → Draft K
  add_init i d =
      on_spec d (record (d.pod.spec) { init_containers = d.pod.spec.init_containers ++ (i ∷ []) })

  -- `incrementContainerResource`
  unfoldable pub increment_container_resource : String → Draft K → Draft K
  unfolding format_int wrap64 ◌+ℤ◌
  increment_container_resource name d = on_container d (record (d.pod.spec.container) {
    resources = record {
      requests = increment K name (d.pod.spec.container.resources.requests);
      limits = increment K name (d.pod.spec.container.resources.limits);
    };
  })

  unfoldable pub set_label : String → String → Draft K → Draft K
  set_label key v d = on_pod d (record (d.pod) {
    meta = record (d.pod.meta) { labels = some (insert key v (map_or_empty (d.pod.meta.labels))) };
  })

  unfoldable pub set_annotation : String → String → Draft K → Draft K
  set_annotation key v d = on_pod d (record (d.pod) {
    meta = record (d.pod.meta) {
      annotations = some (insert key v (map_or_empty (d.pod.meta.annotations)));
    };
  })

  unfoldable pub select_node : String → String → Draft K → Draft K
  select_node key v d = on_spec d (record (d.pod.spec) {
    node_selector = some (insert key v (map_or_empty (d.pod.spec.node_selector)));
  })

  abbrev shared_meta : Pod K → ObjectMeta → ObjectMeta
  shared_meta p m = record m {
    labels = written (m.labels) (p.meta.labels);
    annotations = written (m.annotations) (p.meta.annotations);
  }

  abbrev shared_spec : Pod K → VirtualMachineSpec K → VirtualMachineSpec K
  shared_spec p s = record s {
    node_selector = written (s.node_selector) (p.spec.node_selector);
    affinity = written (s.affinity) (p.spec.affinity);
    resources = record {
      requests = written (s.resources.requests) (p.spec.container.resources.requests);
      limits = written (s.resources.limits) (p.spec.container.resources.limits);
    };
  }

  abbrev pub shared_vm : Pod K → VirtualMachine K → VirtualMachine K
  shared_vm p vm = record vm { meta = shared_meta p (vm.meta); spec = shared_spec p (vm.spec) }

  unfoldable pub share : Draft K → M K (Draft K)
  share d = do vm ← current; put (shared_vm (d.pod) vm); pure d
