-- ===== src/ReplicaSet/Counting.antt =====
-- Which machines of a replica set are counted: the loop of `calculateStatus` of
-- pkg/controller/vmrs_controller.go.
use virtink.Prelude.{
  ℕ, suc, ◌≤◌, ◌≡◌, refl, ◌↔◌, Bool, true, false, ◌&&◌, String, List, [], ◌∷◌, length, select,
  if◌then◌else◌, arith,
}
use virtink.Api.{Kube, VirtualMachine, VirtualMachinePhase, Condition, time_is_zero}
use virtink.ReplicaSet.Objects.{Labels, Selectors}
use virtink.ReplicaSet.Filter.{is_vm_ready}

-- How many elements of a list have a property.
pub data Counts {ℓ} {A : Type ℓ} (P : A → Type 0) : List A → ℕ → Type ℓ where
  no_more : Counts P [] 0
  has_it : {x : A} {xs : List A} {n : ℕ} → P x → Counts P xs n → Counts P (x ∷ xs) (suc n)
  lacks_it : {x : A} {xs : List A} {n : ℕ} → ¬ P x → Counts P xs n → Counts P (x ∷ xs) n

select-Counts {ℓ} :
    {A : Type ℓ} (P : A → Type 0) (p : A → Bool)
    → ((x : A) → (p x ≡ true) ↔ P x)
    → (xs : List A) → Counts P xs (length (select p xs))
select-Counts P p h [] = no_more
select-Counts P p h (x ∷ xs) = at (p x) (h x) (select-Counts P p h xs)
  where
    at :
        (b : Bool)
        → ((b ≡ true) ↔ P x)
        → Counts P xs (length (select p xs))
        → Counts P (x ∷ xs) (length (if b then x ∷ select p xs else select p xs))
    at true i c = has_it (i.0 refl) c
    at false i c = lacks_it (λ q. absurd (ground (arith, i.1 q))) c

-- The loop over the machines, as a selection.
module _ (L : Selectors) {K : Kube} where
  unfoldable pub counted : (VirtualMachine K → Bool) → Labels → List (VirtualMachine K) → ℕ
  counted p required vms = length (select (λ vm. L.set_matches required vm.meta.labels && p vm) vms)

  -- A machine that counts as ready: it has the labels, runs, is not being deleted, and its condition Ready
  -- is true.
  abbrev pub IsReady : (List Condition → String → Bool) → Labels → VirtualMachine K → Type 0
  IsReady true_condition required vm =
      (L.set_matches required vm.meta.labels ≡ true)
      × (vm.status.phase ≡ VirtualMachinePhase.running)
      × (time_is_zero vm.meta.deletion_timestamp ≡ true)
      × (true_condition vm.status.conditions "Ready" ≡ true)

  is_vm_ready_iff :
      (true_condition : List Condition → String → Bool) (required : Labels) (vm : VirtualMachine K)
      → ((L.set_matches required vm.meta.labels && is_vm_ready true_condition vm) ≡ true)
        ↔ IsReady true_condition required vm
  unfolding is_vm_ready
  is_vm_ready_iff true_condition required vm = ground arith

  pub counted-Counts :
      (true_condition : List Condition → String → Bool) (required : Labels)
      (vms : List (VirtualMachine K))
      → Counts
          (IsReady true_condition required)
          vms
          (counted (is_vm_ready true_condition) required vms)
  unfolding counted
  counted-Counts true_condition required vms =
      select-Counts (IsReady true_condition required)
        (λ vm. L.set_matches required vm.meta.labels && is_vm_ready true_condition vm)
        (is_vm_ready_iff true_condition required) vms

  pub counted-ext :
      (p q : VirtualMachine K → Bool) (required : Labels)
      → ((vm : VirtualMachine K) → p vm ≡ q vm)
      → (vms : List (VirtualMachine K)) → counted p required vms ≡ counted q required vms
  unfolding counted
  counted-ext p q required h [] = refl
  counted-ext p q required h (vm ∷ vms) = ground (arith, h vm, counted-ext p q required h vms)

  pub counted-bound :
      (p : VirtualMachine K → Bool) (required : Labels) (vms : List (VirtualMachine K))
      → counted p required vms ≤ length vms
  unfolding counted
  counted-bound p required [] = omega arith
  counted-bound p required (vm ∷ vms) = ground (arith, counted-bound p required vms)
