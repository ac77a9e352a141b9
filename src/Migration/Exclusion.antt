-- ===== src/Migration/Exclusion.antt =====
-- The migrations of one virtual machine with the machine, and a request for one of them:
-- pkg/controller/vmm_controller.go.
use virtink.Prelude.{
  ◌≡◌, ◌⊎◌, List, ◌∷◌, true, String, str_eq, str_eq_iff, if◌then◌else◌, Option, none, some, arith,
}
use virtink.Api.{Kube, VirtualMachine, VirtualMachineMigration}
use virtink.Client.{GetResult, found, UpdateError}
use virtink.Migration.Controller.{reconcile, reconcile_request}
use virtink.Migration.Ownership.{
  is_active, HeldBy, applied, IsCurrent, reconcile-holds, reconcile-keeps, reconcile-retains,
}

-- The machine, its past versions, which a cache may still give, and the migration object with each UID.
pub record World (K : Kube) : Type 0 where
  pub vm : VirtualMachine K
  pub past : List (VirtualMachine K)
  pub migration_of : String → VirtualMachineMigration

-- The object that the server stores after a status update.
abbrev pub stored :
    (VirtualMachineMigration → Option UpdateError)
    → VirtualMachineMigration
    → Option VirtualMachineMigration
    → VirtualMachineMigration
stored update m none = m
stored update m (some m') = elim (update m') [ none ↦ m' | some _ ↦ m ]

module _ {K : Kube} where
  -- One request of the controller for the migration with UID `uid`.
  unfoldable pub after_request :
      (String → String → GetResult (VirtualMachine K))
      → (VirtualMachine K → Option UpdateError)
      → (VirtualMachineMigration → Option UpdateError)
      → String
      → World K
      → World K
  after_request get update update_migration uid w =
      let m = w.migration_of uid in
      let sent = (reconcile_request (found m) get update update_migration).1 in
      record {
        vm = applied update w.vm (reconcile get update m).vm_update;
        past = w.vm ∷ w.past;
        migration_of =
            λ v. if str_eq v uid then stored update_migration m sent else w.migration_of v;
      }

  -- Each object has its UID, and one with an active phase holds the machine's slot.
  pub record IsExclusive (w : World K) : Type 0 where
    pub named : (uid : String) → (w.migration_of uid).meta.uid ≡ uid
    pub held :
        (uid : String)
        → is_active (w.migration_of uid).status.phase ≡ true
        → HeldBy w.vm.status.migration uid

  pub reconcile-meta :
      (get : String → String → GetResult (VirtualMachine K))
      (update : VirtualMachine K → Option UpdateError) (m : VirtualMachineMigration)
      → (reconcile get update m).migration.meta ≡ m.meta
  unfolding reconcile
  reconcile-meta get update m = ground arith

  pub reconcile_request-sent :
      (get : String → String → GetResult (VirtualMachine K))
      (update : VirtualMachine K → Option UpdateError)
      (update_migration : VirtualMachineMigration → Option UpdateError)
      (m : VirtualMachineMigration)
      → let sent = (reconcile_request (found m) get update update_migration).1 in
        (stored update_migration m sent ≡ m)
        ⊎ (stored update_migration m sent ≡ (reconcile get update m).migration)
  unfolding reconcile_request
  reconcile_request-sent get update update_migration m = ground arith

  -- A request that reads the machine as it is keeps the invariant.
  pub request-IsExclusive :
      (get : String → String → GetResult (VirtualMachine K))
      (update : VirtualMachine K → Option UpdateError)
      (update_migration : VirtualMachineMigration → Option UpdateError) (uid : String) (w : World K)
      → IsCurrent w.vm (get (w.migration_of uid).meta.namespace (w.migration_of uid).spec.vm_name)
      → IsExclusive w
      → IsExclusive (after_request get update update_migration uid w)
  unfolding after_request
  request-IsExclusive get update update_migration uid w current inv = record {
    named = λ v. ground (arith, str_eq_iff v uid, inv.named v, inv.named uid, sent, kept);
    held = λ v active. ground (
      arith,
      str_eq_iff v uid,
      inv.named v,
      inv.named uid,
      inv.held v,
      inv.held uid,
      sent,
      kept,
      reconcile-holds get update m w.vm current,
      reconcile-keeps get update m w.vm v current,
      reconcile-retains get update m w.vm current,
    );
  }
    where
      m : VirtualMachineMigration
      m = w.migration_of uid

      sent :
          (stored update_migration m (reconcile_request (found m) get update update_migration).1
            ≡ m)
          ⊎ (stored update_migration m (reconcile_request (found m) get update update_migration).1
              ≡ (reconcile get update m).migration)
      sent = reconcile_request-sent get update update_migration m

      kept : (reconcile get update m).migration.meta ≡ m.meta
      kept = reconcile-meta get update m
