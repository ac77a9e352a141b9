-- ===== src/Machine/Spares.antt =====
-- What the machine's controller spares: `gcVMPods`, and the release of a deleted machine, of
-- pkg/controller/vm_controller.go.
use virtink.Prelude.{
  ◌≡◌, ◌≢◌, refl, Bool, true, false, not, ◌||◌, String, str_eq, str_eq_iff, Option, none, some,
  List, [], ◌∷◌, All, if◌then◌else◌, arith,
}
use virtink.Api.{Kube, VirtualMachine, VirtualMachineStatusMigration, Pod}
use virtink.Machine.Monad.{
  Cluster, State, Outcome, returned, raised, final, and_then, ◌>>=◌, ◌>>◌, Call, get_pod,
  list_vm_pods, list_pods, create_pod, delete_pod, update_vm, get_claim, get_network, generate_name,
  DeleteResult, deleted, already_gone, delete_failed, current, pure, raise, call,
}
use virtink.Machine.Makes.{
  Adds, Makes, bind-Makes, then-Makes, pure-Makes, raise-Makes, call-Makes, if-Makes, when_do-Makes,
  no-Adds, chain-Adds,
}
use virtink.Machine.Hotplug.{delete_result, delete_pods}
use virtink.Machine.Cleanup.{
  is_target, is_unused, unused_pods, listed, list_pods_of, gc_vm_pods, delete_listed,
  delete_all_vm_pods,
}
use virtink.Machine.Reconcile.Ended.{release_if, release}

-- A call that deletes none of the pods that the status of the machine names.
abbrev pub Spares : {K : Kube} → VirtualMachine K → Call K → Type 0
Spares vm (delete_pod p) =
    (p.meta.name ≢ vm.status.vm_pod_name)
    × ((g : VirtualMachineStatusMigration)
        → vm.status.migration ≡ some g
        → p.meta.name ≢ g.target_vm_pod_name)
Spares vm (get_pod n) = Unit
Spares vm (list_vm_pods n) = Unit
Spares vm (list_pods n) = Unit
Spares vm (create_pod p) = Unit
Spares vm (update_vm v) = Unit
Spares vm (get_claim n) = Unit
Spares vm (get_network n) = Unit
Spares vm (generate_name n) = Unit

module _ {K : Kube} (c : Cluster K) (P : Call K → Type 0) where
  delete_result-Makes : (g : Bool) (r : DeleteResult) → Makes P (delete_result c g r)
  unfolding delete_result
  delete_result-Makes g deleted = pure-Makes P tt
  delete_result-Makes g already_gone = if-Makes P g (pure-Makes P tt) (raise-Makes P _)
  delete_result-Makes g (delete_failed e) = raise-Makes P _

  pub delete_pods-Makes :
      (g : Bool) (ps : List (Pod K)) → All (λ p. P (delete_pod p)) ps → Makes P (delete_pods c g ps)
  unfolding delete_pods
  delete_pods-Makes g [] h = pure-Makes P tt
  delete_pods-Makes g (p ∷ ps) h =
      then-Makes P
        (when_do-Makes P _
          (bind-Makes P (call-Makes P (delete_pod p) h.0) (λ calls. delete_result-Makes g _)))
        (delete_pods-Makes g ps h.1)

  listed-Makes : (o : Option (List (Pod K))) → Makes P (listed c o)
  unfolding listed
  listed-Makes none = raise-Makes P _
  listed-Makes (some ps) = pure-Makes P ps

  list_pods_of-Makes : (uid : String) → P (list_vm_pods uid) → Makes P (list_pods_of c uid)
  unfolding list_pods_of
  list_pods_of-Makes uid h =
      bind-Makes P (call-Makes P (list_vm_pods uid) h) (λ calls. listed-Makes _)

is_unused-Spares :
    {K : Kube} (vm : VirtualMachine K) (p : Pod K)
    → is_unused vm p ≡ true
    → Spares vm (delete_pod p)
is_unused-Spares vm p h = (
  λ e. ground (arith, str_eq_iff p.meta.name vm.status.vm_pod_name),
  target vm.status.migration h,
)
  where
    target :
        (m : Option VirtualMachineStatusMigration)
        → not (str_eq p.meta.name vm.status.vm_pod_name || is_target m p.meta.name) ≡ true
        → (g : VirtualMachineStatusMigration) → m ≡ some g
        → p.meta.name ≢ g.target_vm_pod_name
    target none k g e n = cc
    target (some f) k g e n = ground (arith, str_eq_iff p.meta.name f.target_vm_pod_name)

unused_pods-Spares :
    {K : Kube} (vm : VirtualMachine K) (ps : List (Pod K))
    → All (λ p. Spares vm (delete_pod p)) (unused_pods vm ps)
unused_pods-Spares vm [] = tt
unused_pods-Spares vm (p ∷ ps) = keep (is_unused vm p) refl (unused_pods-Spares vm ps)
  where
    keep :
        (b : Bool)
        → is_unused vm p ≡ b
        → All (λ q. Spares vm (delete_pod q)) (unused_pods vm ps)
        → All
            (λ q. Spares vm (delete_pod q))
            (if b then p ∷ unused_pods vm ps else unused_pods vm ps)
    keep true h rest = (is_unused-Spares vm p h, rest)
    keep false h rest = rest

-- The garbage collection of pods deletes neither the pod of the machine nor the target pod of its
-- migration, whatever the cluster answers.
pub gc_vm_pods-Spares :
    {K : Kube} (c : Cluster K) (vm : VirtualMachine K) (s : State K)
    → Adds (Spares vm) s.calls (final (gc_vm_pods c vm s)).calls
unfolding gc_vm_pods
gc_vm_pods-Spares c vm s =
    (bind-Makes (Spares vm) (list_pods_of-Makes c (Spares vm) vm.meta.uid tt) (λ ps.
        delete_pods-Makes c (Spares vm) true (unused_pods vm ps) (unused_pods-Spares vm ps))).run
      s

-- A call that is not an update of the machine.
abbrev pub IsNoUpdate : {K : Kube} → Call K → Type 0
IsNoUpdate (update_vm v) = ⊥
IsNoUpdate (delete_pod p) = Unit
IsNoUpdate (get_pod n) = Unit
IsNoUpdate (list_vm_pods n) = Unit
IsNoUpdate (list_pods n) = Unit
IsNoUpdate (create_pod p) = Unit
IsNoUpdate (get_claim n) = Unit
IsNoUpdate (get_network n) = Unit
IsNoUpdate (generate_name n) = Unit

each-All : {K : Kube} (ps : List (Pod K)) → All (λ p. IsNoUpdate (delete_pod p)) ps
each-All [] = tt
each-All (p ∷ ps) = (tt, each-All ps)

module _ {K : Kube} (c : Cluster K) where
  not_gone-Adds :
      (before : List (Call K)) (o : Outcome K (Unit {0}))
      → Adds IsNoUpdate before (final o).calls
      → Adds IsNoUpdate before
          (final (and_then (and_then o (λ u. pure false)) (release_if c))).calls
  unfolding release_if pure
  not_gone-Adds before (returned u s) h = h
  not_gone-Adds before (raised e s) h = h

  release_listed-Adds :
      (o : Option (List (Pod K))) (s : State K)
      → o ≢ some []
      → Adds IsNoUpdate s.calls
          (final (and_then (and_then (listed c o s) (delete_listed c)) (release_if c))).calls
  unfolding listed delete_listed ◌>>◌ ◌>>=◌ raise pure
  release_listed-Adds none s h = no-Adds IsNoUpdate s.calls
  release_listed-Adds (some []) s h = absurd (h refl)
  release_listed-Adds (some (p ∷ ps)) s h =
      not_gone-Adds s.calls (delete_pods c true (p ∷ ps) s)
        ((delete_pods-Makes c IsNoUpdate true (p ∷ ps) (each-All (p ∷ ps))).run s)

  -- As long as the list of the pods of a deleted machine is not empty or cannot be had, its release makes
  -- no update of the machine: it keeps its finalizer.
  pub release-IsNoUpdate :
      (s : State K)
      → c.vm_pods s.calls s.vm.meta.uid ≢ some []
      → Adds IsNoUpdate s.calls (final (release c s)).calls
  unfolding release delete_all_vm_pods list_pods_of ◌>>=◌ current call
  release-IsNoUpdate s h =
      chain-Adds IsNoUpdate
        (record { new = list_vm_pods s.vm.meta.uid ∷ []; added = refl; each = (tt, tt) })
        (release_listed-Adds (c.vm_pods s.calls s.vm.meta.uid)
          (record s { calls = list_vm_pods s.vm.meta.uid ∷ s.calls }) h)
