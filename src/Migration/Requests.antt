-- ===== src/Migration/Requests.antt =====
-- A request for one of a machine's migrations, with the machine as it is or as it was:
-- pkg/controller/vmm_controller.go.
use virtink.Prelude.{
  ◌≡◌, ◌≢◌, ◌⊎◌, inl, inr, true, String, str_eq_iff, Option, none, ◌∷◌, arith, subst, sym,
}
use virtink.Api.{Kube, VirtualMachine, VirtualMachineMigration}
use virtink.Client.{GetResult, found, UpdateError}
use virtink.Migration.Controller.{is_terminal, reconcile}
use virtink.Migration.Ownership.{is_active, HeldBy, IsCurrent, reconcile-keeps}
use virtink.Migration.Exclusion.{
  World, request-IsExclusive, after_request, reconcile-meta, reconcile_request-sent,
}
use virtink.Migration.Versions.{
  Among, IsRead, IsTracked, applied-refused, reconcile-old, sent_by, sent_by-terminal, current-once,
  read-cases,
}

module _ {K : Kube} where
  module _ (get : String → String → GetResult (VirtualMachine K))
      (update : VirtualMachine K → Option UpdateError)
      (update_migration : VirtualMachineMigration → Option UpdateError) (uid : String) (w : World K)
      (inv : IsTracked w) where
    m : VirtualMachineMigration
    m = w.migration_of uid

    after : World K
    unfolding after_request
    after = after_request get update update_migration uid w

    terminal-after :
        (u : String)
        → is_terminal (w.migration_of u).status.phase ≡ true
        → is_terminal (after.migration_of u).status.phase ≡ true
    unfolding after m
    terminal-after u h =
        ground (arith, str_eq_iff u uid, sent_by-terminal get update update_migration m)

    once-after :
        ((u : String)
          → HeldBy w.vm.status.migration u
          → HeldBy after.vm.status.migration u
            ⊎ (is_terminal (after.migration_of u).status.phase ≡ true))
        → (v : VirtualMachine K) (u : String) → Among v (w.vm ∷ w.past)
        → HeldBy v.status.migration u
        → HeldBy after.vm.status.migration u
          ⊎ (is_terminal (after.migration_of u).status.phase ≡ true)
    once-after moves v u (inl e) held = moves u (subst (λ x. HeldBy x.status.migration u) e held)
    once-after moves v u (inr p) held = elim (inv.once v u p held) [
      | inl h ↦ moves u h
      | inr t ↦ inr (terminal-after u t)
    ]

    current-moves :
        IsCurrent w.vm (get m.meta.namespace m.spec.vm_name)
        → (u : String) → HeldBy w.vm.status.migration u
        → HeldBy after.vm.status.migration u
          ⊎ (is_terminal (after.migration_of u).status.phase ≡ true)
    unfolding after m
    current-moves current u held = ground (
      arith,
      str_eq_iff u uid,
      inv.exclusive.named uid,
      reconcile-keeps get update m w.vm u current,
      current-once get update update_migration m w.vm u current,
    )

    current-IsTracked : IsCurrent w.vm (get m.meta.namespace m.spec.vm_name) → IsTracked after
    unfolding after m after_request
    current-IsTracked current = record {
      exclusive = request-IsExclusive get update update_migration uid w current inv.exclusive;
      once = once-after (current-moves current);
    }

    -- A request with a past version of the machine.
    module _ (v : VirtualMachine K) (read : get m.meta.namespace m.spec.vm_name ≡ found v)
        (past : Among v w.past) (refused : (x : VirtualMachine K) → update x ≢ none) where
      same_vm : after.vm ≡ w.vm
      unfolding after m after_request
      same_vm = applied-refused update w.vm (reconcile get update m).vm_update refused

      active-held :
          (u : String)
          → u ≡ m.meta.uid
          → is_active ((sent_by get update update_migration m).status.phase) ≡ true
          → (is_active m.status.phase ≡ true → HeldBy w.vm.status.migration u)
          → (HeldBy v.status.migration u
              → HeldBy w.vm.status.migration u ⊎ (is_terminal m.status.phase ≡ true))
          → HeldBy w.vm.status.migration u
      active-held u same active held once = ground (
        arith,
        reconcile_request-sent get update update_migration m,
        reconcile-old get update m v read refused,
      )

      old-IsTracked : IsTracked after
      unfolding after m after_request
      old-IsTracked = record {
        exclusive = record {
          named = λ u. ground (
            arith,
            str_eq_iff u uid,
            inv.exclusive.named u,
            inv.exclusive.named uid,
            reconcile_request-sent get update update_migration m,
            reconcile-meta get update m,
          );
          held = λ u active.
              subst (λ x. HeldBy x.status.migration u) (sym same_vm)
                (ground (
                  arith,
                  str_eq_iff u uid,
                  inv.exclusive.named uid,
                  inv.exclusive.held u,
                  active-held u,
                  inv.once v u past,
                ));
        };
        once = once-after (λ u h. inl (subst (λ x. HeldBy x.status.migration u) (sym same_vm) h));
      }

    pub request-IsTracked :
        IsRead w update (get (w.migration_of uid).meta.namespace (w.migration_of uid).spec.vm_name)
        → IsTracked (after_request get update update_migration uid w)
    unfolding after m after_request
    request-IsTracked r = elim (read-cases w update _ r) [
      | inl current ↦ current-IsTracked current
      | inr (v, read, past, refused) ↦ old-IsTracked v read past refused
    ]
