-- ===== src/Machine/Hotplug.antt =====
-- Hotplug volumes: `handleHotplugVolumes`, `getHotplugVolumes`, `getHotplugVolumePods`,
-- `isPodMatchVMHotplugVolumes` and `buildHotplugVolumePod` of pkg/controller/vm_controller.go.
use virtink.Prelude.{
  ◌+◌, ◌==◌, Bool, true, false, not, ◌&&◌, String, str_eq, Option, none, some, List, [], ◌∷◌, map,
  length, is_empty, select, if◌then◌else◌,
}
use virtink.Prelude.Map.{contains}
use virtink.Api.{
  Kube, VirtualMachine, Volume, is_hotpluggable, VolumeStatus, VolumePhase, ObjectMeta,
  OwnerReference, Pod, PodVolume, claim, time_is_zero,
}
use virtink.Machine.Monad.{
  Cluster, M, ◌>>=◌, ◌>>◌, pure, raise, call, when_do, list_pods, create_pod, delete_pod,
  fails_with, DeleteResult, deleted, already_gone, delete_failed,
}
use virtink.Machine.Claims.{is_ready, is_ready-Reads}
use virtink.Machine.Reads.{
  Reads, reads, then-Reads, when_do-Reads, bind-Reads, call-Reads, if-Reads, pure-Reads,
  raise-Reads,
}

abbrev owned_by : String → Option OwnerReference → Bool
owned_by uid none = false
owned_by uid (some o) = str_eq o.uid uid

-- metav1.IsControlledBy
unfoldable pub is_controlled_by : ObjectMeta → ObjectMeta → Bool
is_controlled_by object owner = owned_by owner.uid object.controller

abbrev pub last_status : String → List VolumeStatus → Option VolumeStatus
last_status name [] = none
last_status name (s ∷ ss) = elim (last_status name ss) [
  | some t ↦ some t
  | none ↦ if str_eq s.name name then some s else none
]

abbrev pub is_mounted : Option VolumeStatus → Bool
is_mounted none = false
is_mounted (some s) = elim s.phase [
  | VolumePhase.mounted_to_pod ↦ true
  | VolumePhase.ready ↦ true
  | _ ↦ false
]

module _ {K : Kube} where
  abbrev pub volume_names : List (PodVolume K) → List String
  volume_names vs = map (λ v. v.name) vs

  unfoldable pub get_hotplug_volumes : VirtualMachine K → Pod K → List (Volume K)
  get_hotplug_volumes vm pod =
      select (λ v. is_hotpluggable v && not (contains (volume_names pod.spec.volumes) v.name))
        vm.spec.volumes

  abbrev is_claim : PodVolume K → Bool
  is_claim v = elim v.source [ claim n ↦ true | _ ↦ false ]

  -- The claims of the pod that are not among the names.
  abbrev unmatched : List String → List (PodVolume K) → List (PodVolume K)
  unmatched names vs = select (λ v. is_claim v && not (contains names v.name)) vs

  -- Two volumes of the pod are not the machine's: the shared directory and the token of the pod.
  unfoldable pub is_pod_match : Pod K → List (Volume K) → Bool
  is_pod_match pod volumes =
      (length pod.spec.volumes == length volumes + 2)
      && is_empty (unmatched (map (λ v. v.name) volumes) pod.spec.volumes)

  -- The first pod that matches, and the others.
  unfoldable pub split_pods : List (Volume K) → List (Pod K) → Option (Pod K) × List (Pod K)
  split_pods volumes [] = (none, [])
  split_pods volumes (p ∷ ps) =
      let (first, others) = split_pods volumes ps in
      if is_pod_match p volumes then (some p, ps) else (first, p ∷ others)

module _ {K : Kube} (c : Cluster K) where
  unfoldable pub pods_result : Pod K → Option (List (Pod K)) → M K (List (Pod K))
  pods_result owner none = raise (fails_with "list pods")
  pods_result owner (some ps) =
      pure (c.newest_first (select (λ p. is_controlled_by p.meta owner.meta) ps))

  unfoldable pub get_hotplug_volume_pods : Pod K → M K (List (Pod K))
  unfolding pods_result is_controlled_by
  get_hotplug_volume_pods pod = do
    calls ← call (list_pods pod.meta.namespace)
    pods_result pod (c.pods calls pod.meta.namespace)

  unfoldable pub create_result : Option String → M K (Unit {0})
  create_result none = pure tt
  create_result (some e) = raise (fails_with e)

  unfoldable pub create : Pod K → M K (Unit {0})
  unfolding create_result
  create pod = do calls ← call (create_pod pod); create_result (c.create calls pod)

  unfoldable pub filter_ready : String → List (Volume K) → M K (List (Volume K))
  unfolding is_ready
  filter_ready namespace [] = pure []
  filter_ready namespace (v ∷ vs) = do
    ready ← is_ready c namespace v
    rest ← filter_ready namespace vs
    pure (if ready then v ∷ rest else rest)

  pods_result-Reads : (owner : Pod K) (ps : Option (List (Pod K))) → Reads (pods_result owner ps)
  unfolding pods_result
  pods_result-Reads owner none = search reads
  pods_result-Reads owner (some ps) = search reads

  pub get_hotplug_volume_pods-Reads : (pod : Pod K) → Reads (get_hotplug_volume_pods pod)
  unfolding get_hotplug_volume_pods
  get_hotplug_volume_pods-Reads pod = search (reads, pods_result-Reads)

  create_result-Reads : (e : Option String) → Reads (create_result e)
  unfolding create_result
  create_result-Reads none = search reads
  create_result-Reads (some e) = search reads

  pub create-Reads : (pod : Pod K) → Reads (create pod)
  unfolding create
  create-Reads pod = search (reads, create_result-Reads)

  pub filter_ready-Reads :
      (namespace : String) (vs : List (Volume K)) → Reads (filter_ready namespace vs)
  unfolding filter_ready
  filter_ready-Reads namespace [] = search reads
  filter_ready-Reads namespace (v ∷ vs) =
      let ih = filter_ready-Reads namespace vs in search (reads, is_ready-Reads c namespace v, ih)

  unfoldable pub delete_result : Bool → DeleteResult → M K (Unit {0})
  delete_result ignores_gone deleted = pure tt
  delete_result ignores_gone already_gone =
      if ignores_gone then pure tt else raise (fails_with "delete a pod that is gone")
  delete_result ignores_gone (delete_failed e) = raise (fails_with e)

  -- Deletes the pods that are not being deleted, and stops at the first error.
  unfoldable pub delete_pods : Bool → List (Pod K) → M K (Unit {0})
  unfolding delete_result
  delete_pods ignores_gone [] = pure tt
  delete_pods ignores_gone (p ∷ ps) = do
    when_do (time_is_zero p.meta.deletion_timestamp)
        (do calls ← call (delete_pod p); delete_result ignores_gone (c.delete calls p))
    delete_pods ignores_gone ps

  delete_result-Reads : (g : Bool) (r : DeleteResult) → Reads (delete_result g r)
  unfolding delete_result
  delete_result-Reads g deleted = search reads
  delete_result-Reads g already_gone = if-Reads g (pure-Reads tt) (raise-Reads _)
  delete_result-Reads g (delete_failed e) = search reads

  pub delete_pods-Reads : (g : Bool) (ps : List (Pod K)) → Reads (delete_pods g ps)
  unfolding delete_pods
  delete_pods-Reads g [] = search reads
  delete_pods-Reads g (p ∷ ps) =
      then-Reads
        (when_do-Reads _
          (bind-Reads (call-Reads (delete_pod p)) (λ calls. delete_result-Reads g _)))
        (delete_pods-Reads g ps)
