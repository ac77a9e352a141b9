-- ===== src/Migration/Ownership.antt =====
-- Migrations that share one virtual machine: `status.migration` of the machine is a slot that one
-- migration holds at a time.
use virtink.Prelude.{
  ◌≡◌, ◌≢◌, ◌⊎◌, inl, inr, Option-cases, Bool, true, false, String, str_eq_iff, Option, none, some,
  arith,
}
use virtink.Api.{
  Kube, VirtualMachine, VirtualMachineMigration, VirtualMachineMigrationPhase,
  VirtualMachineStatusMigration,
}
use virtink.Client.{GetResult, found, not_found, failed, UpdateError}
use virtink.Migration.Controller.{set_slot, is_terminal, fresh_migration, reconcile}

-- A migration that has been given a phase by the machine and is not finished.
abbrev pub is_active : VirtualMachineMigrationPhase → Bool
is_active VirtualMachineMigrationPhase.unset = false
is_active VirtualMachineMigrationPhase.succeeded = false
is_active VirtualMachineMigrationPhase.failed = false
is_active _ = true

abbrev pub HeldBy : Option VirtualMachineStatusMigration → String → Type 0
HeldBy none uid = ⊥
HeldBy (some g) uid = g.uid ≡ uid

module _ {K : Kube} where
  -- The cluster's machine after a status update: the server refuses it or takes it.
  abbrev pub applied :
      (VirtualMachine K → Option UpdateError)
      → VirtualMachine K
      → Option (VirtualMachine K)
      → VirtualMachine K
  applied update vm none = vm
  applied update vm (some vm') = elim (update vm') [ none ↦ vm' | some _ ↦ vm ]

  -- A read that succeeds gives the machine as it is.
  abbrev pub IsCurrent : VirtualMachine K → GetResult (VirtualMachine K) → Type 0
  IsCurrent vm (found vm') = vm' ≡ vm
  IsCurrent vm not_found = Unit
  IsCurrent vm (failed _) = Unit

  -- What one reconciliation may do to the slot: nothing, take a free one, or free its own.
  pub reconcile-slot :
      (get : String → String → GetResult (VirtualMachine K))
      (update : VirtualMachine K → Option UpdateError) (m : VirtualMachineMigration)
      (vm vm' : VirtualMachine K)
      → get m.meta.namespace m.spec.vm_name ≡ found vm
      → (reconcile get update m).vm_update ≡ some vm'
      → ((vm.status.migration ≡ none)
          × (vm' ≡ set_slot vm (some (fresh_migration m.meta.uid)))
          × (is_terminal m.status.phase ≡ false))
        ⊎ (HeldBy vm.status.migration m.meta.uid
            × (vm' ≡ set_slot vm none)
            × (is_terminal m.status.phase ≡ true))
  unfolding reconcile
  reconcile-slot get update m vm vm' read sent = grind (arith, str_eq_iff)

  -- One reconciliation gives its own migration an active phase only while it holds the slot.
  pub reconcile-holds :
      (get : String → String → GetResult (VirtualMachine K))
      (update : VirtualMachine K → Option UpdateError) (m : VirtualMachineMigration)
      (vm : VirtualMachine K)
      → IsCurrent vm (get m.meta.namespace m.spec.vm_name)
      → (is_active m.status.phase ≡ true → HeldBy vm.status.migration m.meta.uid)
      → is_active (reconcile get update m).migration.status.phase ≡ true
      → HeldBy (applied update vm (reconcile get update m).vm_update).status.migration m.meta.uid
  unfolding reconcile
  reconcile-holds get update m vm current held active = elim (Option-cases vm.status.migration) [
    | inl e ↦ ground arith
    | inr (g, e) ↦ ground (arith, str_eq_iff g.uid m.meta.uid)
  ]

  -- It leaves the slot to another migration that holds it.
  pub reconcile-keeps :
      (get : String → String → GetResult (VirtualMachine K))
      (update : VirtualMachine K → Option UpdateError) (m : VirtualMachineMigration)
      (vm : VirtualMachine K) (uid : String)
      → IsCurrent vm (get m.meta.namespace m.spec.vm_name)
      → uid ≢ m.meta.uid
      → HeldBy vm.status.migration uid
      → HeldBy (applied update vm (reconcile get update m).vm_update).status.migration uid
  unfolding reconcile
  reconcile-keeps get update m vm uid current other held = elim (Option-cases vm.status.migration) [
    | inl e ↦ ground arith
    | inr (g, e) ↦ ground (arith, str_eq_iff g.uid m.meta.uid)
  ]

  -- An active migration does not give up the slot that it holds.
  pub reconcile-retains :
      (get : String → String → GetResult (VirtualMachine K))
      (update : VirtualMachine K → Option UpdateError) (m : VirtualMachineMigration)
      (vm : VirtualMachine K)
      → IsCurrent vm (get m.meta.namespace m.spec.vm_name)
      → is_active m.status.phase ≡ true
      → HeldBy vm.status.migration m.meta.uid
      → HeldBy (applied update vm (reconcile get update m).vm_update).status.migration m.meta.uid
  unfolding reconcile
  reconcile-retains get update m vm current active held = ground arith
