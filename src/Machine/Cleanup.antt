-- ===== src/Machine/Cleanup.antt =====
-- `deleteAllVMPods` and `gcVMPods` of pkg/controller/vm_controller.go.
use virtink.Prelude.{
  Bool, true, false, not, ◌||◌, String, str_eq, Option, none, some, List, [], ◌∷◌, select,
}
use virtink.Api.{Kube, VirtualMachine, VirtualMachineStatusMigration, Pod}
use virtink.Machine.Monad.{Cluster, M, ◌>>=◌, ◌>>◌, pure, raise, call, list_vm_pods, fails_with}
use virtink.Machine.Reads.{Reads, reads, then-Reads, pure-Reads}
use virtink.Machine.Hotplug.{delete_pods, delete_pods-Reads}

abbrev pub is_target : Option VirtualMachineStatusMigration → String → Bool
is_target none name = false
is_target (some g) name = str_eq name g.target_vm_pod_name

abbrev pub is_unused : {K : Kube} → VirtualMachine K → Pod K → Bool
is_unused vm p =
    not (str_eq p.meta.name vm.status.vm_pod_name || is_target vm.status.migration p.meta.name)

-- The pods that the status of the machine does not name.
abbrev pub unused_pods : {K : Kube} → VirtualMachine K → List (Pod K) → List (Pod K)
unused_pods vm ps = select (λ p. is_unused vm p) ps

module _ {K : Kube} (c : Cluster K) where
  unfoldable pub listed : Option (List (Pod K)) → M K (List (Pod K))
  listed none = raise (fails_with "list VM Pods")
  listed (some ps) = pure ps

  unfoldable pub list_pods_of : String → M K (List (Pod K))
  unfolding listed
  list_pods_of uid = do calls ← call (list_vm_pods uid); listed (c.vm_pods calls uid)

  unfoldable pub gc_vm_pods : VirtualMachine K → M K (Unit {0})
  unfolding list_pods_of delete_pods
  gc_vm_pods vm = do ps ← list_pods_of vm.meta.uid; delete_pods c true (unused_pods vm ps)

  unfoldable pub delete_listed : List (Pod K) → M K Bool
  unfolding delete_pods
  delete_listed [] = pure true
  delete_listed (p ∷ ps) = do delete_pods c true (p ∷ ps); pure false

  -- True if there is no pod left.
  unfoldable pub delete_all_vm_pods : VirtualMachine K → M K Bool
  unfolding list_pods_of delete_listed
  delete_all_vm_pods vm = do ps ← list_pods_of vm.meta.uid; delete_listed ps

  listed-Reads : (o : Option (List (Pod K))) → Reads (listed o)
  unfolding listed
  listed-Reads none = search reads
  listed-Reads (some ps) = search reads

  list_pods_of-Reads : (uid : String) → Reads (list_pods_of uid)
  unfolding list_pods_of
  list_pods_of-Reads uid = search (reads, listed-Reads)

  pub gc_vm_pods-Reads : (vm : VirtualMachine K) → Reads (gc_vm_pods vm)
  unfolding gc_vm_pods
  gc_vm_pods-Reads vm = search (reads, list_pods_of-Reads, delete_pods-Reads c)

  delete_listed-Reads : (ps : List (Pod K)) → Reads (delete_listed ps)
  unfolding delete_listed
  delete_listed-Reads [] = search reads
  delete_listed-Reads (p ∷ ps) = then-Reads (delete_pods-Reads c true (p ∷ ps)) (pure-Reads false)

  pub delete_all_vm_pods-Reads : (vm : VirtualMachine K) → Reads (delete_all_vm_pods vm)
  unfolding delete_all_vm_pods
  delete_all_vm_pods-Reads vm = search (reads, list_pods_of-Reads, delete_listed-Reads)
