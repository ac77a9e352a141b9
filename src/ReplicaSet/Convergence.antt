-- ===== src/ReplicaSet/Convergence.antt =====
-- Repeated passes of a replica set bring its machines to the number that it asks for:
-- `scaleVMs` of pkg/controller/vmrs_controller.go, run again once its calls have taken effect.
use virtink.Prelude.{
  ℕ, zero, suc, ◌+◌, ◌-◌, ◌*◌, ◌≤◌, ◌<◌, ◌≡◌, ap, ◌∙◌, refl, false, ltb, String, none, some, List,
  [], ◌∷◌, length, Bool-cases, inl, inr, arith,
}
use virtink.Prelude.Int.{pos, negsuc, ◌+ℤ◌, neg}
use virtink.Api.{Kube, VirtualMachine}
use virtink.Expectations.Tracking.{Stores, Expectations, expect_creations, expect_deletions}
use virtink.ReplicaSet.Objects.{Selectors, VirtualMachineReplicaSet, object_key}
use virtink.ReplicaSet.Scale.{
  CreateResult, DeleteResult, created, deleted, already_gone, delete_failed, Calls, Pass,
  burst_replicas, capped, keys, sort_vms_by_creation_timestamp, get_vms_to_delete, start,
  create_vms, delete_vm, delete_vms, create_pass, delete_pass, scale_by, scale_vms,
}
use virtink.ReplicaSet.Status.{difference}
use virtink.ReplicaSet.Deletion.{length-get_vms_to_delete}

abbrev Removed : DeleteResult → Type 0
Removed deleted = Unit
Removed already_gone = Unit
Removed (delete_failed e) = ⊥

-- No call fails; sorting and scheduling lose no machine.
pub record Smooth {K : Kube} (c : Calls K) : Type 0 where
  pub creates : (n : ℕ) → c.create n ≡ created
  pub deletes : (vm : VirtualMachine K) → Removed (c.delete vm)
  pub sorts :
      (vms : List (VirtualMachine K))
      → length (sort_vms_by_creation_timestamp c vms false) ≡ length vms
  pub schedules : (vms : List (VirtualMachine K)) → length (c.schedule vms) ≡ length vms

module _ {P : Stores} where
  create_vms-count :
      (rc : String) (answer : ℕ → CreateResult) (n : ℕ) (s : Pass P)
      → ((i : ℕ) → answer i ≡ created)
      → ((create_vms rc answer n s).created_count ≡ n + s.created_count)
        × ((create_vms rc answer n s).deleted_keys ≡ s.deleted_keys)
        × ((create_vms rc answer n s).first_error ≡ s.first_error)
  unfolding create_vms
  create_vms-count rc answer zero s h = (omega arith, refl, refl)
  create_vms-count rc answer (suc n) s h = ground (arith, h n, create_vms-count rc answer n s h)

  delete_vms-count :
      {K : Kube} (rc : String) (answer : VirtualMachine K → DeleteResult)
      (vms : List (VirtualMachine K)) (s : Pass P)
      → ((vm : VirtualMachine K) → Removed (answer vm))
      → ((delete_vms rc answer vms s).created_count ≡ s.created_count)
        × (length ((delete_vms rc answer vms s).deleted_keys)
            ≡ length vms + length (s.deleted_keys))
        × ((delete_vms rc answer vms s).first_error ≡ s.first_error)
  unfolding delete_vms
  delete_vms-count rc answer [] s h = (refl, omega arith, refl)
  delete_vms-count rc answer (vm ∷ vms) s h = ground (
    arith,
    h vm,
    delete_vms-count rc answer vms (delete_vm rc (object_key vm.meta) (answer vm) s) h,
  )

  create_pass-count :
      {K : Kube} (c : Calls K) (now : ℕ) (rc : String) (n : ℕ) (u : Expectations P)
      → Smooth c
      → ((create_pass c now rc n u).created_count ≡ n)
        × (length ((create_pass c now rc n u).deleted_keys) ≡ 0)
        × ((create_pass c now rc n u).first_error ≡ none)
  unfolding create_pass
  create_pass-count c now rc n u ok =
      let done =
        create_vms-count rc c.create n (start (expect_creations now rc (pos n) u)) ok.creates in
      (done.0 ∙ omega arith, ap length (done.1), done.2)

  delete_pass-count :
      {K : Kube} (c : Calls K) (now : ℕ) (rc : String) (n : ℕ) (vms : List (VirtualMachine K))
      (u : Expectations P)
      → Smooth c
      → n ≤ length vms
      → ((delete_pass c now rc n vms u).created_count ≡ 0)
        × (length ((delete_pass c now rc n vms u).deleted_keys) ≡ n)
        × ((delete_pass c now rc n vms u).first_error ≡ none)
  unfolding delete_pass
  delete_pass-count c now rc n vms u ok most =
      let chosen = get_vms_to_delete c vms n in
      let done =
        delete_vms-count rc c.delete (c.schedule chosen)
          (start (expect_deletions now rc (keys chosen) u)) ok.deletes in
      let size = length-get_vms_to_delete c vms n (ok.sorts vms) most in
      (done.0, done.1 ∙ (omega (arith, ok.schedules chosen, size)), done.2)

difference-more : (n r : ℕ) → r ≤ n → difference n (pos r) ≡ pos (n - r)
unfolding ◌+ℤ◌ neg
difference-more n r h = ground arith

difference-less : (n r : ℕ) → n < r → difference n (pos r) ≡ negsuc (r - n - 1)
unfolding ◌+ℤ◌ neg
difference-less n r h = ground arith

module _ {P : Stores} {K : Kube} where
  scale_by-count :
      (c : Calls K) (now : ℕ) (rc : String) (vms : List (VirtualMachine K)) (u : Expectations P)
      (r : ℕ)
      → Smooth c
      → let s = scale_by c now rc (difference (length vms) (pos r)) vms u in
        (s.created_count ≡ capped (r - length vms))
        × (length (s.deleted_keys) ≡ capped (length vms - r))
        × (s.first_error ≡ none)
  unfolding scale_by
  scale_by-count c now rc vms u r ok = elim (Bool-cases (ltb (length vms) r)) [
    | inl less ↦
        let d = difference-less (length vms) r (ground arith) in
        let done = create_pass-count c now rc (capped (suc (r - length vms - 1))) u ok in
        grind arith
    | inr most ↦
        let d = difference-more (length vms) r (ground arith) in
        let done = delete_pass-count c now rc (capped (length vms - r)) vms u ok (ground arith) in
        grind arith
  ]

module _ {P : Stores} {K : Kube} {L : Selectors} where
  -- A pass whose calls all succeed creates as many machines as are missing and deletes as many as are
  -- too many, ten at most, and reports no error.
  scale_vms-count :
      (c : Calls K) (now : ℕ) (vmrs : VirtualMachineReplicaSet K L) (vms : List (VirtualMachine K))
      (u : Expectations P) (r : ℕ)
      → Smooth c
      → vmrs.spec.replicas ≡ some (pos r)
      → let s = scale_vms c now vmrs vms u in
        (s.created_count ≡ capped (r - length vms))
        × (length (s.deleted_keys) ≡ capped (length vms - r))
        × (s.first_error ≡ none)
  unfolding scale_vms
  scale_vms-count c now vmrs vms u r ok h =
      let done = scale_by-count c now (object_key vmrs.meta) vms u r ok in grind arith

-- Passes whose calls all succeed, each run on the machines that the one before has left.
pub data Passes (P : Stores) {K : Kube} {L : Selectors} (vmrs : VirtualMachineReplicaSet K L)
    : ℕ → List (VirtualMachine K) → List (VirtualMachine K) → Type 1 where
  none_left : {vms : List (VirtualMachine K)} → Passes P vmrs 0 vms vms
  one_more :
      {k : ℕ} {vms vms' vms'' : List (VirtualMachine K)} (c : Calls K) (now : ℕ)
      (u : Expectations P)
      → Smooth c
      → length vms' + length ((scale_vms c now vmrs vms u).deleted_keys)
        ≡ length vms + (scale_vms c now vmrs vms u).created_count
      → Passes P vmrs k vms' vms''
      → Passes P vmrs (suc k) vms vms''

module _ {P : Stores} {K : Kube} {L : Selectors} where
  -- However many machines there are, after k passes whose calls succeed there are exactly as many as the
  -- set asks for, if their number was at most 10 k away from it; further passes keep that number.
  pub Passes-converge :
      (vmrs : VirtualMachineReplicaSet K L) (r k : ℕ) (vms vms' : List (VirtualMachine K))
      → vmrs.spec.replicas ≡ some (pos r)
      → Passes P vmrs k vms vms'
      → length vms ≤ r + burst_replicas * k
      → r ≤ length vms + burst_replicas * k
      → length vms' ≡ r
  Passes-converge vmrs r k vms vms' h none_left above below = omega arith
  Passes-converge vmrs r k vms vms' h (one_more {k = j} {vms' = next} c now u ok count rest) above
        below =
      let (more, fewer, _) = scale_vms-count c now vmrs vms u r ok h in
      let size : length next + capped (length vms - r) ≡ length vms + capped (r - length vms) =
        omega (arith, more, fewer, count) in
      Passes-converge vmrs r j next vms' h rest (ground arith) (ground arith)
