-- ===== src/Examples/Migrations.antt =====
-- A migration of the machine of the examples.
use virtink.Prelude.{
  ℕ, ◌≡◌, ◌≢◌, refl, ◌↔◌, ◌⊎◌, inl, inr, subst, true, false, String, str_eq, Option, none, some,
  List, [], ◌∷◌, if◌then◌else◌,
}
use virtink.Api.{
  VirtualMachine, VirtualMachineMigration, VirtualMachineMigrationSpec,
  VirtualMachineMigrationPhase, Condition,
}
use virtink.Client.{GetResult, found, not_found, UpdateError, conflict}
use virtink.Admission.{Operation, allowed}
use virtink.Migration.Controller.{reconcile, set_slot, fresh_migration, is_terminal}
use virtink.Migration.Ownership.{HeldBy, reconcile-slot}
use virtink.Migration.Phases.{CannotMigrate, reconcile_fails, reconcile_absorbs}
use virtink.Migration.Webhook.{handle_vmm, Admits, handle_vmm-allowed_iff}
use virtink.Migration.Exclusion.{World, IsExclusive, after_request}
use virtink.Migration.Versions.{IsTracked}
use virtink.Migration.Interleaved.{Step, request, here, next, Reach-exclusive}
use virtink.Examples.Data.{kube}
use virtink.Examples.Machines.{machine, meta_of}

abbrev migration_with : VirtualMachineMigrationPhase → String → VirtualMachineMigration
migration_with phase uid = record {
  meta = meta_of uid;
  spec = record { vm_name = "vm" };
  status = record { phase = phase; source_node_name = ""; target_node_name = "" };
}

abbrev get : String → String → GetResult (VirtualMachine kube)
get namespace name = if str_eq name "vm" then found machine else not_found

abbrev accept : VirtualMachine kube → Option UpdateError
accept vm = none

abbrev accept_migration : VirtualMachineMigration → Option UpdateError
accept_migration m = none

abbrev unset : String → VirtualMachineMigration
unset uid = migration_with VirtualMachineMigrationPhase.unset uid

abbrev taken : VirtualMachine kube
taken = set_slot machine (some (fresh_migration "m"))

-- A new migration takes the free slot.
reconcile-slot_example :
    ((machine.status.migration ≡ none)
      × (taken ≡ set_slot machine (some (fresh_migration "m")))
      × (is_terminal ((unset "m").status.phase) ≡ false))
    ⊎ (HeldBy machine.status.migration "m"
        × (taken ≡ set_slot machine none)
        × (is_terminal ((unset "m").status.phase) ≡ true))
unfolding reconcile
reconcile-slot_example = reconcile-slot get accept (unset "m") machine taken refl refl

abbrev held : VirtualMachine kube
held = set_slot machine (some (fresh_migration "other"))

abbrev get_held : String → String → GetResult (VirtualMachine kube)
get_held namespace name = found held

reconcile_fails_example :
    ((reconcile get_held accept (unset "m")).migration.status.phase
      ≡ VirtualMachineMigrationPhase.failed)
    ↔ CannotMigrate (get_held "default" "vm") "m"
reconcile_fails_example = reconcile_fails get_held accept (unset "m") refl refl

abbrev finished : VirtualMachineMigration
finished = migration_with VirtualMachineMigrationPhase.succeeded "m"

reconcile_absorbs_example : (reconcile get_held accept finished).migration ≡ finished
reconcile_absorbs_example = reconcile_absorbs get_held accept finished (inl refl)

-- Each migration is new, and the slot of the machine is held by "m", which runs.
abbrev busy : VirtualMachine kube
busy =
    set_slot machine
      (some (record (fresh_migration "m") { phase = VirtualMachineMigrationPhase.running }))

abbrev pub first_world : World kube
first_world = record { vm = busy; past = machine ∷ []; migration_of = unset }

pub first_world-IsExclusive : IsExclusive first_world
first_world-IsExclusive = record { named = λ uid. refl; held = λ uid h. cc h }

abbrev get_busy : String → String → GetResult (VirtualMachine kube)
get_busy namespace name = found busy

abbrev second_world : World kube
second_world = after_request get_busy accept accept_migration "m" first_world

abbrev first_step : Step first_world second_world
first_step = request get_busy accept accept_migration "m" (inl refl)

-- The other migration still reads the machine with a free slot, and the server refuses its update.
abbrev refuse : VirtualMachine kube → Option UpdateError
refuse vm = some conflict

refuse-fails : (vm : VirtualMachine kube) → refuse vm ≢ none
refuse-fails vm e = cc

abbrev third_world : World kube
third_world = after_request get refuse accept_migration "other" second_world

abbrev second_step : Step second_world third_world
unfolding after_request reconcile
second_step = request get refuse accept_migration "other" (inr (inr (inl refl), refuse-fails))

first_world-IsTracked : IsTracked first_world
first_world-IsTracked = record {
  exclusive = first_world-IsExclusive;
  once = λ v uid among held. elim among [
    | inl e ↦ absurd (subst (λ x. HeldBy x.status.migration uid) e held)
    | inr none_left ↦ absurd none_left
  ];
}

Reach-exclusive_example : ◌≡◌ {A = String} "m" "m"
unfolding after_request reconcile virtink.Migration.Controller.reconcile_request
Reach-exclusive_example =
    Reach-exclusive {w = first_world} {w' = third_world} "m" "m" first_world-IsTracked
      (next (next here first_step) second_step) refl refl

-- `diff` counts a change of the name.
abbrev diff : VirtualMachineMigrationSpec → VirtualMachineMigrationSpec → Option ℕ
diff a b = some (if str_eq a.vm_name b.vm_name then 0 else 1)

abbrev find : List Condition → String → Option Condition
find [] t = none
find (c ∷ cs) t = if str_eq c.type_name t then some c else find cs t

handle_vmm-allowed_iff_example :
    (handle_vmm find get diff
        (record { operation = Operation.create; object = some (unset "m"); old_object = none })
      ≡ allowed)
    ↔ Admits find get diff Operation.create (unset "m") none
handle_vmm-allowed_iff_example =
    handle_vmm-allowed_iff find get diff Operation.create (unset "m") none
