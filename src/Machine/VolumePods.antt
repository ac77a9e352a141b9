-- ===== src/Machine/VolumePods.antt =====
-- The pod that keeps the hotplug volumes of a machine attached to its node: `buildHotplugVolumePod` and
-- `handleHotplugVolumes` of pkg/controller/vm_controller.go.
use virtink.Prelude.{
  ltb, Bool, false, not, ◌&&◌, String, Option, none, some, is_some, List, [], ◌∷◌, length, is_empty,
  if◌then◌else◌,
}
use Prim.Native.String.{◌++◌ as str_append}
use virtink.Api.{
  Kube, VirtualMachine, Volume, pvc_name, ObjectMeta, Pod, PodVolume, empty_dir, claim, VolumeMount,
  empty_meta, empty_resources, unset_status,
}
use virtink.Machine.Monad.{Cluster, M, ◌>>=◌, ◌>>◌, pure, raise, when_do, fails_with}
use virtink.Machine.Claims.{is_block, is_block-Reads}
use virtink.Machine.Reads.{Reads, reads, bind-Reads, if-Reads, pure-Reads}
use virtink.Machine.Hotplug.{
  get_hotplug_volumes, get_hotplug_volume_pods, get_hotplug_volume_pods-Reads, create, create-Reads,
  filter_ready, filter_ready-Reads, delete_pods, delete_pods-Reads, last_status, is_mounted,
  split_pods,
}

-- What the volumes add to the pod: volumes, mounts and devices.
pub record Added (K : Kube) : Type 0 where
  pub volumes : List (PodVolume K)
  pub mounts : List VolumeMount
  pub devices : List VolumeMount

abbrev mount_at : String → String → VolumeMount
mount_at name path = record { name = name; mount_path = path }

module _ {K : Kube} where
  -- A volume that the machine has mounted already is neither mounted nor a device here.
  abbrev add_volume : Volume K → Bool → Bool → Added K → Added K
  add_volume v mounted block rest = record {
    volumes = record { name = v.name; source = claim (pvc_name v) } ∷ rest.volumes;
    mounts =
        if not mounted && not block
        then mount_at v.name (str_append "/mnt/" v.name) ∷ rest.mounts
        else rest.mounts;
    devices =
        if not mounted && block
        then mount_at v.name (str_append "/hotplug/" v.name) ∷ rest.devices
        else rest.devices;
  }

  abbrev pub volume_pod : String → VirtualMachine K → Pod K → Added K → Pod K
  volume_pod image vm owner added = record {
    meta = record empty_meta { namespace = owner.meta.namespace };
    generate_name = str_append vm.meta.name "-hotplug-volumes-";
    spec = record {
      node_name = "";
      node_selector = none;
      required_hosts = some (owner.spec.node_name ∷ []);
      affinity = none;
      tolerations = owner.spec.tolerations;
      init_containers = [];
      container = record {
        name = "hotplug-volumes";
        image = image;
        image_pull_policy = "";
        command = "/bin/sh" ∷ "-c" ∷ "ncat -lkU /hotplug/hp.sock" ∷ [];
        args = [];
        env = [];
        resources = empty_resources;
        mounts = mount_at "hotplug" "/hotplug" ∷ added.mounts;
        devices = added.devices;
        liveness_probe = none;
        readiness_probe = none;
      };
      sidecars = [];
      volumes = record { name = "hotplug"; source = empty_dir } ∷ added.volumes;
    };
    status = unset_status;
  }

-- `image` is the `PrerunnerImageName` of the reconciler.
module _ {K : Kube} (c : Cluster K) (image : String) where
  unfoldable pub add_volumes : VirtualMachine K → List (Volume K) → M K (Added K)
  unfolding is_block
  add_volumes vm [] = pure (record { volumes = []; mounts = []; devices = [] })
  add_volumes vm (v ∷ vs) = do
    let mounted = is_mounted (last_status v.name vm.status.volume_status)
    block ← if mounted then pure false else is_block c vm.meta.namespace v
    rest ← add_volumes vm vs
    pure (add_volume v mounted block rest)

  unfoldable pub reference_result : Pod K → Option ObjectMeta → M K (Pod K)
  reference_result pod none = raise (fails_with "set controller reference")
  reference_result pod (some m) = pure (record pod { meta = m })

  unfoldable pub set_controller_reference : ObjectMeta → Pod K → M K (Pod K)
  unfolding reference_result
  set_controller_reference owner pod = reference_result pod (c.set_reference owner pod.meta)

  unfoldable pub build_hotplug_volume_pod : VirtualMachine K → Pod K → List (Volume K) → M K (Pod K)
  unfolding add_volumes set_controller_reference
  build_hotplug_volume_pod vm owner vs = do
    added ← add_volumes vm vs
    set_controller_reference owner.meta (volume_pod image vm owner added)

  unfoldable pub replace_pods :
      VirtualMachine K → Pod K → List (Volume K) → Option (Pod K) × List (Pod K) → M K (Unit {0})
  unfolding build_hotplug_volume_pod create delete_pods
  replace_pods vm owner ready (present, olds) = do
    when_do (not (is_some present) && not (is_empty ready))
        (do pod ← build_hotplug_volume_pod vm owner ready; create c pod)
    delete_pods c false olds

  unfoldable pub exchange_pods : VirtualMachine K → Pod K → List (Volume K) → M K (Unit {0})
  unfolding get_hotplug_volume_pods replace_pods split_pods
  exchange_pods vm owner ready = do
    pods ← get_hotplug_volume_pods c owner
    replace_pods vm owner ready (split_pods ready pods)

  unfoldable pub handle_hotplug_volumes : VirtualMachine K → Pod K → Bool → M K (Unit {0})
  unfolding get_hotplug_volumes filter_ready exchange_pods
  handle_hotplug_volumes vm owner wait_all = do
    let volumes = get_hotplug_volumes vm owner
    ready ← filter_ready c vm.meta.namespace volumes
    if wait_all && ltb (length ready) (length volumes)
        then pure tt
        else exchange_pods vm owner ready

  add_volumes-Reads : (vm : VirtualMachine K) (vs : List (Volume K)) → Reads (add_volumes vm vs)
  unfolding add_volumes
  add_volumes-Reads vm [] = search reads
  add_volumes-Reads vm (v ∷ vs) =
      bind-Reads (if-Reads _ (pure-Reads false) (is_block-Reads c vm.meta.namespace v))
        (λ block. bind-Reads (add_volumes-Reads vm vs) (λ rest. pure-Reads _))

  reference_result-Reads : (pod : Pod K) (m : Option ObjectMeta) → Reads (reference_result pod m)
  unfolding reference_result
  reference_result-Reads pod none = search reads
  reference_result-Reads pod (some m) = search reads

  pub set_controller_reference-Reads :
      (owner : ObjectMeta) (pod : Pod K) → Reads (set_controller_reference owner pod)
  unfolding set_controller_reference
  set_controller_reference-Reads owner pod =
      reference_result-Reads pod (c.set_reference owner pod.meta)

  build_hotplug_volume_pod-Reads :
      (vm : VirtualMachine K) (owner : Pod K) (vs : List (Volume K))
      → Reads (build_hotplug_volume_pod vm owner vs)
  unfolding build_hotplug_volume_pod
  build_hotplug_volume_pod-Reads vm owner vs =
      search (reads, add_volumes-Reads, set_controller_reference-Reads)

  replace_pods-Reads :
      (vm : VirtualMachine K) (owner : Pod K) (ready : List (Volume K))
      (p : Option (Pod K) × List (Pod K))
      → Reads (replace_pods vm owner ready p)
  unfolding replace_pods
  replace_pods-Reads vm owner ready (p, olds) =
      search (reads, build_hotplug_volume_pod-Reads, create-Reads c, delete_pods-Reads c)

  exchange_pods-Reads :
      (vm : VirtualMachine K) (owner : Pod K) (ready : List (Volume K))
      → Reads (exchange_pods vm owner ready)
  unfolding exchange_pods
  exchange_pods-Reads vm owner ready =
      search (reads, get_hotplug_volume_pods-Reads c, replace_pods-Reads)

  pub handle_hotplug_volumes-Reads :
      (vm : VirtualMachine K) (owner : Pod K) (wait_all : Bool)
      → Reads (handle_hotplug_volumes vm owner wait_all)
  unfolding handle_hotplug_volumes
  handle_hotplug_volumes-Reads vm owner wait_all =
      search (reads, filter_ready-Reads c, exchange_pods-Reads)
