-- ===== src/Machine/VolumeStatus.antt =====
-- The status of the hotplug volumes: `updateHotplugVolumeStatus` of pkg/controller/vm_controller.go. The map
-- of the old status is an association list without repeated names.
use virtink.Prelude.{
  Bool, true, false, ◌&&◌, ◌||◌, String, str_eq, Option, none, some, List, [], ◌∷◌, ◌++◌,
  if◌then◌else◌, ◌≡◌,
}
use virtink.Prelude.Map.{contains, lookup, insert}
use virtink.Api.{
  Kube, VirtualMachine, Volume, VolumeStatus, VolumePhase, Pod, PodVolume, PodPhase, pod_phase_eq,
}
use virtink.Machine.Monad.{
  Cluster, M, ◌>>=◌, ◌>>◌, pure, raise, current, put, requeue_later, panics,
}
use virtink.Machine.Hotplug.{
  get_hotplug_volumes, get_hotplug_volume_pods, get_hotplug_volume_pods-Reads, volume_names,
}
use virtink.Machine.Reads.{Reads, reads, current-Reads, raise-Reads}
use virtink.Machine.Keeps.{Keeps, Reads-Keeps, bind-Keeps}
use virtink.Machine.Leads.{change_then-Keeps}

abbrev pub StatusMap : Type 0
StatusMap = List (String × VolumeStatus)

unfoldable pub map_of : List VolumeStatus → StatusMap → StatusMap
map_of [] m = m
map_of (s ∷ ss) m = map_of ss (insert s.name s m)

unfoldable pub without : String → StatusMap → StatusMap
without name [] = []
without name ((n, s) ∷ m) = if str_eq n name then without name m else (n, s) ∷ without name m

abbrev default_phase : VolumePhase → VolumePhase
default_phase VolumePhase.unset = VolumePhase.pending
default_phase p = p

abbrev pub is_pending : VolumePhase → Bool
is_pending VolumePhase.pending = true
is_pending _ = false

abbrev fresh_status : String → VolumeStatus
fresh_status name = record { name = name; phase = VolumePhase.unset; hotplug_volume = none }

abbrev pub old_or_fresh : String → Option VolumeStatus → VolumeStatus
old_or_fresh name none = fresh_status name
old_or_fresh name (some s) = s

abbrev pub any_pending : List VolumeStatus → Bool
any_pending [] = false
any_pending (s ∷ ss) = is_pending s.phase || any_pending ss

abbrev attach : VolumePhase → PodPhase → VolumePhase
attach phase pod =
    if pod_phase_eq pod PodPhase.running && is_pending phase
    then VolumePhase.attached_to_node
    else phase

abbrev prepend : Option VolumeStatus → Option (List VolumeStatus) → Option (List VolumeStatus)
prepend none rest = none
prepend (some s) none = none
prepend (some s) (some rest) = some (s ∷ rest)

module _ {K : Kube} where
  -- The first pod with a volume of this name.
  unfoldable pub find_pod : String → List (Pod K) → Option (Pod K)
  find_pod name [] = none
  find_pod name (p ∷ ps) =
      if contains (volume_names p.spec.volumes) name then some p else find_pod name ps

  abbrev first_is : String → List (PodVolume K) → Bool
  first_is name [] = false
  first_is name (v ∷ vs) = str_eq v.name name

  -- The search in the second loop goes on after a pod is found, and looks at the first volume of each
  -- pod that is left.
  unfoldable pub find_pod_again : String → Option (Pod K) → List (Pod K) → Option (Pod K)
  find_pod_again name acc [] = acc
  find_pod_again name none (p ∷ ps) =
      find_pod_again name (if contains (volume_names p.spec.volumes) name then some p else none) ps
  find_pod_again name (some q) (p ∷ ps) =
      find_pod_again name (if first_is name p.spec.volumes then some p else some q) ps

  -- The status of a hotplug volume, given its old one and its pod.
  abbrev pub next_status : VolumeStatus → Option (Pod K) → VolumeStatus
  next_status s none = record s {
    phase = VolumePhase.pending;
    hotplug_volume = some (record { volume_pod_name = ""; volume_pod_uid = "" });
  }
  next_status s (some p) = record s {
    phase = attach (default_phase s.phase) p.status.phase;
    hotplug_volume = some (record { volume_pod_name = p.meta.name; volume_pod_uid = p.meta.uid });
  }

  -- The first loop: the new list, and what is left of the map.
  unfoldable pub plugged_statuses :
      List (Pod K) → List (Volume K) → StatusMap → List VolumeStatus × StatusMap
  unfolding find_pod without
  plugged_statuses pods [] m = ([], m)
  plugged_statuses pods (v ∷ vs) m =
      let (rest, left) = plugged_statuses pods vs (without v.name m) in
      (next_status (old_or_fresh v.name (lookup v.name m)) (find_pod v.name pods) ∷ rest, left)

  -- A volume that is detached while it has a pod. Its status is dereferenced: `none` is a panic.
  abbrev detach : VolumeStatus → Pod K → Option VolumeStatus
  detach s p = elim s.hotplug_volume [
    | none ↦ none
    | some h ↦ some (record s {
      phase = VolumePhase.detaching;
      hotplug_volume = some (record { volume_pod_name = p.meta.name; volume_pod_uid = p.meta.uid });
    })
  ]

  -- The second loop.
  unfoldable pub detached_statuses : List (Pod K) → StatusMap → Option (List VolumeStatus)
  unfolding find_pod_again
  detached_statuses pods [] = some []
  detached_statuses pods ((name, s) ∷ m) = elim (find_pod_again name none pods) [
    | none ↦ detached_statuses pods m
    | some p ↦ prepend (detach s p) (detached_statuses pods m)
  ]

  abbrev pub set_volume_status : VirtualMachine K → List VolumeStatus → VirtualMachine K
  set_volume_status vm ss = record vm { status = record (vm.status) { volume_status = ss } }

module _ {K : Kube} (c : Cluster K) where
  unfoldable pub requeue_if_pending : List VolumeStatus → M K (Unit {0})
  requeue_if_pending ss = if any_pending ss then raise (requeue_later 60) else pure tt

  unfoldable pub store_statuses : List VolumeStatus → Option (List VolumeStatus) → M K (Unit {0})
  unfolding requeue_if_pending
  store_statuses kept none = raise panics
  store_statuses kept (some gone) = do
    vm ← current
    put (set_volume_status vm (kept ++ gone))
    requeue_if_pending (kept ++ gone)

  unfoldable pub update_hotplug_volume_status : Pod K → M K (Unit {0})
  unfolding get_hotplug_volume_pods get_hotplug_volumes plugged_statuses detached_statuses
      store_statuses map_of
  update_hotplug_volume_status owner = do
    vm ← current
    pods ← get_hotplug_volume_pods c owner
    let kept =
        plugged_statuses pods (get_hotplug_volumes vm owner) (map_of vm.status.volume_status [])
    store_statuses kept.0 (detached_statuses pods (c.any_order kept.1))

-- What is kept of the machine: anything that does not depend on the statuses of the volumes.
module _ {κ} {K : Kube} {X : Type κ} (c : Cluster K) (f : VirtualMachine K → X)
    (apart : (vm : VirtualMachine K) (ss : List VolumeStatus)
      → f (set_volume_status vm ss) ≡ f vm) where
  requeue_if_pending-Reads : (ss : List VolumeStatus) → Reads (requeue_if_pending c ss)
  unfolding requeue_if_pending
  requeue_if_pending-Reads ss = search reads

  store_statuses-Keeps :
      (kept : List VolumeStatus) (gone : Option (List VolumeStatus))
      → Keeps f (store_statuses c kept gone)
  unfolding store_statuses
  store_statuses-Keeps kept none = Reads-Keeps f (raise-Reads panics)
  store_statuses-Keeps kept (some gone) =
      change_then-Keeps f (λ vm. set_volume_status vm (kept ++ gone))
        (λ vm. requeue_if_pending c (kept ++ gone)) (λ vm. apart vm (kept ++ gone))
        (λ vm. Reads-Keeps f (requeue_if_pending-Reads (kept ++ gone)))

  pub update_hotplug_volume_status-Keeps :
      (owner : Pod K) → Keeps f (update_hotplug_volume_status c owner)
  unfolding update_hotplug_volume_status
  update_hotplug_volume_status-Keeps owner = bind-Keeps f (Reads-Keeps f current-Reads) (λ vm.
      bind-Keeps f (Reads-Keeps f (get_hotplug_volume_pods-Reads c owner))
        (λ pods. store_statuses-Keeps _ _))
