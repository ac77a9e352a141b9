-- ===== src/Migration/Interleaved.antt =====
-- Any number of migrations of one virtual machine, reconciled in any order between runs of the machine's
-- controller and changes by others: pkg/controller/vmm_controller.go with vm_controller.go.
use virtink.Prelude.{
  ◌≡◌, inl, inr, true, String, str_eq, str_eq_iff, if◌then◌else◌, Option, List, ◌∷◌, arith,
  Bool-cases, subst,
}
use virtink.Api.{
  Kube, VirtualMachinePhase, VirtualMachine, VirtualMachineMigration, VirtualMachineMigrationPhase,
}
use virtink.Client.{GetResult, UpdateError}
use virtink.Machine.Monad.{Cluster, Call, final}
use virtink.Machine.Build.Draft.{Builder}
use virtink.Machine.Reconcile.Ended.{reconcile as reconcile_machine}
use virtink.Machine.Reconcile.Lifecycle.{IsIdle}
use virtink.Machine.Reconcile.Refinement.{UpdateKeepsStatus}
use virtink.Machine.Reconcile.Theorems.{SlotMove, uid_of, reconcile-SlotMove}
use virtink.Migration.Ownership.{is_active, HeldBy}
use virtink.Migration.Exclusion.{World, after_request}
use virtink.Migration.Versions.{Among, IsRead, replaced, IsTracked, replaced-IsTracked}
use virtink.Migration.Requests.{request-IsTracked}

busy_slot :
    {phase : VirtualMachinePhase} {x y : Option String}
    → SlotMove phase x y
    → ¬ (IsIdle phase)
    → y ≡ x
busy_slot (inl same) busy = same
busy_slot (inr (idle, _)) busy = absurd (busy idle)

module _ {K : Kube} where
  -- `machine` is a run of the machine's controller while the machine is pending, placed or unknown. Others,
  -- such as the daemon, leave the UID in the slot. A new migration has no phase and a UID of its own.
  pub data Step (w : World K) : World K → Type 1 where
    request :
        (get : String → String → GetResult (VirtualMachine K))
        (update : VirtualMachine K → Option UpdateError)
        (update_migration : VirtualMachineMigration → Option UpdateError) (uid : String)
        → IsRead w update
            (get (w.migration_of uid).meta.namespace (w.migration_of uid).spec.vm_name)
        → Step w (after_request get update update_migration uid w)
    machine :
        (c : Cluster K) (b : Builder K) (calls : List (Call K))
        → UpdateKeepsStatus c
        → ¬ (IsIdle w.vm.status.phase)
        → Step w
            (replaced w (final (reconcile_machine c b (record { vm = w.vm; calls = calls }))).vm)
    others :
        (vm' : VirtualMachine K)
        → uid_of vm'.status.migration ≡ uid_of w.vm.status.migration
        → Step w (replaced w vm')
    create :
        (m : VirtualMachineMigration)
        → m.status.phase ≡ VirtualMachineMigrationPhase.unset
        → ((v : VirtualMachine K)
            → Among v (w.vm ∷ w.past)
            → ¬ (HeldBy v.status.migration m.meta.uid))
        → Step w
            (record w { migration_of = λ v. if str_eq v m.meta.uid then m else w.migration_of v })

  pub data Reach (w : World K) : World K → Type 1 where
    here : Reach w w
    next : {u v : World K} → Reach w u → Step u v → Reach w v

  create-IsTracked :
      (w : World K) (m : VirtualMachineMigration)
      → m.status.phase ≡ VirtualMachineMigrationPhase.unset
      → ((v : VirtualMachine K)
          → Among v (w.vm ∷ w.past)
          → ¬ (HeldBy v.status.migration m.meta.uid))
      → IsTracked w
      → IsTracked
          (record w { migration_of = λ v. if str_eq v m.meta.uid then m else w.migration_of v })
  create-IsTracked w m fresh unique inv = record {
    exclusive = record {
      named = λ v. ground (arith, str_eq_iff v m.meta.uid, inv.exclusive.named v);
      held = λ v active. ground (arith, str_eq_iff v m.meta.uid, inv.exclusive.held v);
    };
    once = λ v u p held. elim (Bool-cases (str_eq u m.meta.uid)) [
      | inl e ↦ absurd (
          unique v (inr p)
            (subst (λ x. HeldBy v.status.migration x) ((str_eq_iff u m.meta.uid).0 e) held))
      | inr e ↦ ground (arith, inv.once v u p held)
    ];
  }

  Step-IsTracked : {w w' : World K} → Step w w' → IsTracked w → IsTracked w'
  Step-IsTracked {w = w} (request get update update_migration uid r) inv =
      request-IsTracked get update update_migration uid w inv r
  Step-IsTracked {w = w} (machine c b calls kept busy) inv =
      replaced-IsTracked w _
        (busy_slot (reconcile-SlotMove c b kept (record { vm = w.vm; calls = calls })) busy) inv
  Step-IsTracked {w = w} (others vm' same) inv = replaced-IsTracked w vm' same inv
  Step-IsTracked {w = w} (create n fresh unique) inv = create-IsTracked w n fresh unique inv

  Reach-IsTracked : {w w' : World K} → IsTracked w → Reach w w' → IsTracked w'
  Reach-IsTracked inv here = inv
  Reach-IsTracked inv (next r step) = Step-IsTracked step (Reach-IsTracked inv r)

  HeldBy_unique :
      (vm : VirtualMachine K) (u v : String)
      → HeldBy vm.status.migration u
      → HeldBy vm.status.migration v
      → u ≡ v
  HeldBy_unique vm u v p q = ground arith

  -- From a world in which every active migration holds the machine's slot, and whoever held it in a past
  -- version of the machine still does or is finished, no steps lead to two active migrations of the machine. The
  -- steps are requests of the migration controller, each with the machine as it is or with a past version
  -- whose update the server refuses; runs of the machine's controller while the machine is pending,
  -- placed or unknown, which do not end it; changes by others that leave the UID in the slot; and the creation of
  -- migrations with a UID of their own. A machine that is new or has ended, whose slot is cleared, is left out.
  pub Reach-exclusive :
      {w w' : World K} (u v : String)
      → IsTracked w
      → Reach w w'
      → is_active (w'.migration_of u).status.phase ≡ true
      → is_active (w'.migration_of v).status.phase ≡ true
      → u ≡ v
  Reach-exclusive {w' = w'} u v inv r p q =
      let inv' = (Reach-IsTracked inv r).exclusive in
      HeldBy_unique w'.vm u v (inv'.held u p) (inv'.held v q)
