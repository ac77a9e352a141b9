-- ===== src/Migration/Versions.antt =====
-- The machine's versions that a cache may give to the migration controller, and what a reconciliation of
-- pkg/controller/vmm_controller.go does with an old one.
use virtink.Prelude.{
  ◌≡◌, ◌≢◌, ◌⊎◌, inl, inr, true, false, String, str_eq_iff, Option, none, some, List, [], ◌∷◌,
  arith, Option-cases, Bool-cases, subst, sym, refl,
}
use virtink.Api.{Kube, VirtualMachine, VirtualMachineMigration}
use virtink.Client.{GetResult, found, not_found, failed, UpdateError}
use virtink.Machine.Reconcile.Theorems.{uid_of, HeldBy-uid_of}
use virtink.Migration.Controller.{
  set_slot, fresh_migration, is_terminal, reconcile, reconcile_request,
}
use virtink.Migration.Ownership.{is_active, HeldBy, applied, IsCurrent}
use virtink.Migration.Exclusion.{World, IsExclusive, stored, reconcile_request-sent}

module _ {K : Kube} where
  abbrev pub Among : VirtualMachine K → List (VirtualMachine K) → Type 0
  Among v [] = ⊥
  Among v (x ∷ xs) = (v ≡ x) ⊎ Among v xs

  -- A read gives the machine as it is or as it was; the server refuses an update of an old version.
  abbrev pub IsRead :
      World K → (VirtualMachine K → Option UpdateError) → GetResult (VirtualMachine K) → Type 0
  IsRead w update (found v) =
      (v ≡ w.vm) ⊎ (Among v w.past × ((x : VirtualMachine K) → update x ≢ none))
  IsRead w update not_found = Unit
  IsRead w update (failed _) = Unit

  abbrev pub replaced : World K → VirtualMachine K → World K
  replaced w vm' = record w { vm = vm'; past = w.vm ∷ w.past }

  -- A migration that held the slot once holds it still or is finished.
  pub record IsTracked (w : World K) : Type 0 where
    pub exclusive : IsExclusive w
    pub once :
        (v : VirtualMachine K) (uid : String)
        → Among v w.past
        → HeldBy v.status.migration uid
        → HeldBy w.vm.status.migration uid ⊎ (is_terminal (w.migration_of uid).status.phase ≡ true)

  pub replaced-IsTracked :
      (w : World K) (vm' : VirtualMachine K)
      → uid_of vm'.status.migration ≡ uid_of w.vm.status.migration
      → IsTracked w
      → IsTracked (replaced w vm')
  replaced-IsTracked w vm' same inv = record {
    exclusive = record {
      named = inv.exclusive.named;
      held = λ uid active. moves uid (inv.exclusive.held uid active);
    };
    once = λ v uid among held. elim among [
      | inl e ↦ inl (moves uid (subst (λ x. HeldBy x.status.migration uid) e held))
      | inr p ↦ elim (inv.once v uid p held) [ inl h ↦ inl (moves uid h) | inr t ↦ inr t ]
    ];
  }
    where
      moves : (uid : String) → HeldBy w.vm.status.migration uid → HeldBy vm'.status.migration uid
      moves = HeldBy-uid_of _ _ same

  reconcile-retains_slot :
      (get : String → String → GetResult (VirtualMachine K))
      (update : VirtualMachine K → Option UpdateError) (m : VirtualMachineMigration)
      (vm : VirtualMachine K)
      → IsCurrent vm (get m.meta.namespace m.spec.vm_name)
      → is_terminal m.status.phase ≡ false
      → HeldBy vm.status.migration m.meta.uid
      → HeldBy (applied update vm (reconcile get update m).vm_update).status.migration m.meta.uid
  unfolding reconcile
  reconcile-retains_slot get update m vm current active held = ground arith

  reconcile-terminal :
      (get : String → String → GetResult (VirtualMachine K))
      (update : VirtualMachine K → Option UpdateError) (m : VirtualMachineMigration)
      → is_terminal m.status.phase ≡ true
      → (reconcile get update m).migration.status.phase ≡ m.status.phase
  unfolding reconcile
  reconcile-terminal get update m h = ground arith

  pub applied-refused :
      (update : VirtualMachine K → Option UpdateError) (vm : VirtualMachine K)
      (o : Option (VirtualMachine K))
      → ((x : VirtualMachine K) → update x ≢ none)
      → applied update vm o ≡ vm
  applied-refused update vm none refused = refl
  applied-refused update vm (some x) refused = elim (Option-cases (update x)) [
    | inl e ↦ absurd (refused x e)
    | inr (err, e) ↦ ground arith
  ]

  -- With an old version of the machine, only its holder becomes active.
  pub reconcile-old :
      (get : String → String → GetResult (VirtualMachine K))
      (update : VirtualMachine K → Option UpdateError) (m : VirtualMachineMigration)
      (v : VirtualMachine K)
      → get m.meta.namespace m.spec.vm_name ≡ found v
      → ((x : VirtualMachine K) → update x ≢ none)
      → is_active (reconcile get update m).migration.status.phase ≡ true
      → (is_active m.status.phase ≡ true)
        ⊎ (HeldBy v.status.migration m.meta.uid × (is_terminal m.status.phase ≡ false))
  unfolding reconcile
  reconcile-old get update m v read refused active = elim (Option-cases v.status.migration) [
    | inl e ↦ ground (arith, refused (set_slot v (some (fresh_migration m.meta.uid))))
    | inr (g, e) ↦ ground (arith, str_eq_iff g.uid m.meta.uid)
  ]

  -- What a request does for the migration `m` that it is about, in a world that is tracked.
  abbrev pub sent_by :
      (String → String → GetResult (VirtualMachine K))
      → (VirtualMachine K → Option UpdateError)
      → (VirtualMachineMigration → Option UpdateError)
      → VirtualMachineMigration
      → VirtualMachineMigration
  sent_by get update update_migration m =
      stored update_migration m (reconcile_request (found m) get update update_migration).1

  pub sent_by-terminal :
      (get : String → String → GetResult (VirtualMachine K))
      (update : VirtualMachine K → Option UpdateError)
      (update_migration : VirtualMachineMigration → Option UpdateError)
      (m : VirtualMachineMigration)
      → is_terminal m.status.phase ≡ true
      → is_terminal ((sent_by get update update_migration m).status.phase) ≡ true
  sent_by-terminal get update update_migration m h =
      let same = reconcile-terminal get update m h in
      elim (reconcile_request-sent get update update_migration m) [
        | inl e ↦ subst (λ x. is_terminal x.status.phase ≡ true) (sym e) h
        | inr e ↦
            subst (λ x. is_terminal x.status.phase ≡ true) (sym e)
              (subst (λ p. is_terminal p ≡ true) (sym same) h)
      ]

  -- A request with the machine as it is.
  pub current-once :
      (get : String → String → GetResult (VirtualMachine K))
      (update : VirtualMachine K → Option UpdateError)
      (update_migration : VirtualMachineMigration → Option UpdateError)
      (m : VirtualMachineMigration) (vm : VirtualMachine K) (uid : String)
      → IsCurrent vm (get m.meta.namespace m.spec.vm_name)
      → uid ≡ m.meta.uid
      → HeldBy vm.status.migration uid
      → HeldBy (applied update vm (reconcile get update m).vm_update).status.migration uid
        ⊎ (is_terminal ((sent_by get update update_migration m).status.phase) ≡ true)
  current-once get update update_migration m vm uid current same held =
      elim (Bool-cases (is_terminal m.status.phase)) [
        | inl t ↦ inr (sent_by-terminal get update update_migration m t)
        | inr t ↦ inl (
            subst
              (λ u.
                HeldBy (applied update vm (reconcile get update m).vm_update).status.migration u)
              (sym same)
              (reconcile-retains_slot get update m vm current t
                (subst (λ u. HeldBy vm.status.migration u) same held)))
      ]

  -- How a read can be: of the machine as it is, if it gives one, or of a past version.
  pub read-cases :
      (w : World K) (update : VirtualMachine K → Option UpdateError)
      (r : GetResult (VirtualMachine K))
      → IsRead w update r
      → IsCurrent w.vm r
        ⊎ ((v : VirtualMachine K) × (r ≡ found v)
            × Among v w.past
            × ((x : VirtualMachine K) → update x ≢ none))
  read-cases w update (found v) (inl e) = inl e
  read-cases w update (found v) (inr (p, refused)) = inr (v, refl, p, refused)
  read-cases w update not_found h = inl tt
  read-cases w update (failed e) h = inl tt
