-- ===== src/Machine/Plugged.antt =====
-- What `updateHotplugVolumeStatus` of pkg/controller/vm_controller.go writes, and when it asks for a retry.
use virtink.Prelude.{
  ◌≡◌, refl, sym, ap, subst, ◌∙◌, Bool, true, false, String, str_eq, str_eq_iff, Option, none, some,
  List, [], ◌∷◌, ◌++◌, map, All, if◌then◌else◌, Bool-cases, inl, inr, arith,
}
use virtink.Prelude.Map.{lookup, insert}
use virtink.Api.{Kube, VirtualMachine, Volume, VolumeStatus, Pod}
use virtink.Machine.Monad.{
  Cluster, State, Outcome, returned, raised, and_then, ◌>>=◌, ◌>>◌, current, put, pure, raise, call,
  Call, list_pods, requeue_later, fails_with, panics,
}
use virtink.Machine.Hotplug.{pods_result, get_hotplug_volumes, get_hotplug_volume_pods}
use virtink.Machine.VolumeStatus.{
  StatusMap, map_of, without, old_or_fresh, next_status, find_pod, plugged_statuses,
  detached_statuses, any_pending, set_volume_status, requeue_if_pending, store_statuses,
  update_hotplug_volume_status,
}

abbrev status_names : List VolumeStatus → List String
status_names ss = map (λ s. s.name) ss

-- The statuses begin with one for each hotplug volume that the pod does not have, in the machine's order.
pub record Tracks {K : Kube} (vm : VirtualMachine K) (owner : Pod K) (ss : List VolumeStatus)
    : Type 0 where
  pub others : List String
  pub all_names : status_names ss ≡ map (λ v. v.name) (get_hotplug_volumes vm owner) ++ others

-- The outcome of an update for a machine: the statuses track the volumes, and a retry is asked for after a
-- minute exactly when one of them is pending. An error of a call leaves the machine as it was; nothing is said of a panic.
abbrev pub Settled : {K : Kube} → VirtualMachine K → Pod K → Outcome K (Unit {0}) → Type 0
Settled vm owner (returned u s) =
    (any_pending s.vm.status.volume_status ≡ false) × Tracks vm owner s.vm.status.volume_status
Settled vm owner (raised (requeue_later n) s) =
    (n ≡ 60)
    × ((any_pending s.vm.status.volume_status ≡ true) × Tracks vm owner s.vm.status.volume_status)
Settled vm owner (raised (fails_with e) s) = s.vm ≡ vm
Settled vm owner (raised panics s) = Unit

abbrev Keyed : StatusMap → Type 0
Keyed m = All (λ e. e.0 ≡ e.1.name) m

insert-Keyed : (s : VolumeStatus) (m : StatusMap) → Keyed m → Keyed (insert s.name s m)
insert-Keyed s [] h = (refl, tt)
insert-Keyed s (e ∷ m) h = at (str_eq e.0 s.name) (insert-Keyed s m h.1)
  where
    at :
        (b : Bool)
        → Keyed (insert s.name s m)
        → Keyed (if b then (s.name, s) ∷ m else e ∷ insert s.name s m)
    at true k = (refl, h.1)
    at false k = (h.0, k)

map_of-Keyed : (ss : List VolumeStatus) (m : StatusMap) → Keyed m → Keyed (map_of ss m)
unfolding map_of
map_of-Keyed [] m h = h
map_of-Keyed (s ∷ ss) m h = map_of-Keyed ss (insert s.name s m) (insert-Keyed s m h)

without-Keyed : (name : String) (m : StatusMap) → Keyed m → Keyed (without name m)
unfolding without
without-Keyed name [] h = tt
without-Keyed name ((n, s) ∷ m) h = at (str_eq n name) (without-Keyed name m h.1)
  where
    at :
        (b : Bool)
        → Keyed (without name m)
        → Keyed (if b then without name m else (n, s) ∷ without name m)
    at true k = k
    at false k = (h.0, k)

lookup-name :
    (name : String) (m : StatusMap) → Keyed m → (old_or_fresh name (lookup name m)).name ≡ name
lookup-name name [] h = refl
lookup-name name ((n, s) ∷ m) h = elim (Bool-cases (str_eq n name)) [
  | inl e ↦ ground (arith, str_eq_iff n name)
  | inr e ↦
      subst (λ b. (old_or_fresh name (if b then some s else lookup name m)).name ≡ name) (sym e)
        (lookup-name name m h.1)
]

module _ {K : Kube} where
  next_status-name : (s : VolumeStatus) (p : Option (Pod K)) → (next_status s p).name ≡ s.name
  next_status-name s none = refl
  next_status-name s (some p) = refl

  plugged_statuses-names :
      (pods : List (Pod K)) (vs : List (Volume K)) (m : StatusMap)
      → Keyed m
      → status_names (plugged_statuses pods vs m).0 ≡ map (λ v. v.name) vs
  unfolding plugged_statuses
  plugged_statuses-names pods [] m h = refl
  plugged_statuses-names pods (v ∷ vs) m h =
      let first =
        next_status-name (old_or_fresh v.name (lookup v.name m)) (find_pod v.name pods)
        ∙ lookup-name v.name m h in
      let rest = plugged_statuses-names pods vs (without v.name m) (without-Keyed v.name m h) in cc

map-append :
    (ss ts : List VolumeStatus) → status_names (ss ++ ts) ≡ status_names ss ++ status_names ts
map-append [] ts = refl
map-append (s ∷ ss) ts = ap (λ l. s.name ∷ l) (map-append ss ts)

module _ {K : Kube} (c : Cluster K) where
  requeue-Settled :
      (b : Bool) (vm : VirtualMachine K) (owner : Pod K) (s : State K)
      → any_pending s.vm.status.volume_status ≡ b
      → Tracks vm owner s.vm.status.volume_status
      → Settled vm owner ((if b then raise (requeue_later 60) else pure tt) s)
  unfolding raise pure
  requeue-Settled true vm owner s h t = (refl, (h, t))
  requeue-Settled false vm owner s h t = (h, t)

  store_statuses-Settled :
      (vm : VirtualMachine K) (owner : Pod K) (kept : List VolumeStatus)
      (gone : Option (List VolumeStatus)) (calls : List (Call K))
      → status_names kept ≡ map (λ v. v.name) (get_hotplug_volumes vm owner)
      → Settled vm owner (store_statuses c kept gone (record { vm = vm; calls = calls }))
  unfolding store_statuses requeue_if_pending ◌>>=◌ ◌>>◌ current put raise
  store_statuses-Settled vm owner kept none calls h = tt
  store_statuses-Settled vm owner kept (some gone) calls h =
      requeue-Settled (any_pending (kept ++ gone)) vm owner
        (record { vm = set_volume_status vm (kept ++ gone); calls = calls }) refl
        (record {
          others = status_names gone;
          all_names = map-append kept gone ∙ ap (λ l. l ++ status_names gone) h;
        })

  listed-Settled :
      (vm : VirtualMachine K) (owner : Pod K) (o : Option (List (Pod K))) (calls : List (Call K))
      → Settled vm owner (
          and_then (pods_result c owner o (record { vm = vm; calls = calls })) (λ pods.
            let kept =
              plugged_statuses pods
                (get_hotplug_volumes vm owner)
                (map_of vm.status.volume_status []) in
            store_statuses c kept.0 (detached_statuses pods (c.any_order kept.1))))
  unfolding pods_result pure raise
  listed-Settled vm owner none calls = refl
  listed-Settled vm owner (some ps) calls = store_statuses-Settled vm owner _ _ calls (
      plugged_statuses-names _ (get_hotplug_volumes vm owner) (map_of vm.status.volume_status [])
        (map_of-Keyed vm.status.volume_status [] tt))

  -- After an update the statuses of a machine begin with one for each hotplug volume that its pod does not
  -- have itself, in the order of the specification. It succeeds only if none of them is pending, and asks
  -- for a retry after a minute only if one is. An error of a call leaves the machine in
  -- memory as it was. Nothing is said of a panic.
  pub update_hotplug_volume_status-Settled :
      (owner : Pod K) (s : State K) → Settled s.vm owner (update_hotplug_volume_status c owner s)
  unfolding update_hotplug_volume_status get_hotplug_volume_pods ◌>>=◌ current call
  update_hotplug_volume_status-Settled owner s =
      listed-Settled s.vm owner (c.pods s.calls owner.meta.namespace)
        (list_pods owner.meta.namespace ∷ s.calls)
