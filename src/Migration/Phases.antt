-- ===== src/Migration/Phases.antt =====
-- The phase that one reconciliation gives to a migration.
use virtink.Prelude.{
  ◌≡◌, ◌≢◌, ◌⊎◌, ◌↔◌, inl, inr, true, false, String, str_eq_iff, Option, none, some, Option-cases,
  arith,
}
use virtink.Api.{
  Kube, VirtualMachine, VirtualMachineMigration, VirtualMachineMigrationPhase,
  VirtualMachineStatusMigration, time_is_zero,
}
use virtink.Client.{GetResult, found, not_found, failed, UpdateError, GetResult-cases}
use virtink.Migration.Controller.{is_terminal, reconcile}

-- Another migration holds the slot.
abbrev HeldByOther : Option VirtualMachineStatusMigration → String → Type 0
HeldByOther none uid = ⊥
HeldByOther (some g) uid = g.uid ≢ uid

-- The slot's holder reports that it has failed.
abbrev FailedItself : Option VirtualMachineStatusMigration → String → Type 0
FailedItself none uid = ⊥
FailedItself (some g) uid = (g.uid ≡ uid) × (g.phase ≡ VirtualMachineMigrationPhase.failed)

-- The machine that a read gives is of no use to the migration with this UID.
abbrev pub CannotMigrate : {K : Kube} → GetResult (VirtualMachine K) → String → Type 0
CannotMigrate not_found uid = Unit
CannotMigrate (failed e) uid = ⊥
CannotMigrate (found vm) uid =
    (time_is_zero vm.meta.deletion_timestamp ≡ false)
    ⊎ (HeldByOther vm.status.migration uid ⊎ FailedItself vm.status.migration uid)

module _ {K : Kube} where
  -- A migration that is neither finished nor being deleted is failed by a reconciliation exactly when
  -- the machine is not found, is being deleted, is held by another migration, or reports to be failed
  -- for this one; a read that gives another error never fails it.
  pub reconcile_fails :
      (get : String → String → GetResult (VirtualMachine K))
      (update : VirtualMachine K → Option UpdateError) (m : VirtualMachineMigration)
      → time_is_zero m.meta.deletion_timestamp ≡ true
      → is_terminal m.status.phase ≡ false
      → ((reconcile get update m).migration.status.phase ≡ VirtualMachineMigrationPhase.failed)
        ↔ CannotMigrate (get m.meta.namespace m.spec.vm_name) m.meta.uid
  unfolding reconcile
  reconcile_fails get update m live unfinished =
      elim (GetResult-cases (get m.meta.namespace m.spec.vm_name)) [
        | inl (vm, e) ↦ elim (Option-cases vm.status.migration) [
          | inl free ↦ ground arith
          | inr (g, taken) ↦ ground (arith, str_eq_iff g.uid m.meta.uid)
        ]
        | inr (inl e) ↦ ground arith
        | inr (inr e) ↦ ground arith
      ]

  -- A finished migration, or one that is being deleted, is never changed by a reconciliation.
  pub reconcile_absorbs :
      (get : String → String → GetResult (VirtualMachine K))
      (update : VirtualMachine K → Option UpdateError) (m : VirtualMachineMigration)
      → (is_terminal m.status.phase ≡ true) ⊎ (time_is_zero m.meta.deletion_timestamp ≡ false)
      → (reconcile get update m).migration ≡ m
  unfolding reconcile
  reconcile_absorbs get update m h = ground arith
