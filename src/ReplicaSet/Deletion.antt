-- ===== src/ReplicaSet/Deletion.antt =====
-- Which machines a replica set gives up, and when its cleaning panics:
-- `getVMsToDelete` and `cleanVMs` of pkg/controller/vmrs_controller.go.
use virtink.Prelude.{
  ℕ, zero, suc, ◌≤◌, ◌<◌, ◌≡◌, refl, Bool, false, ap, ◌∙◌, sym, subst, take-append-drop, ◌↔◌, ltb,
  String, none, List, [], ◌∷◌, ◌++◌, length, length-take, take, drop, All, arith, Bool-cases, inl,
  inr,
}
use virtink.Api.{Kube, VirtualMachine}
use virtink.Expectations.Tracking.{Stores}
use virtink.ReplicaSet.Objects.{object_key}
use virtink.ReplicaSet.Scale.{
  Calls, Pass, burst_replicas, capped, creation_less, sort_vms_by_creation_timestamp, delete_vm,
  get_vms_to_delete, clean_from, clean_vms,
}

-- One list is a rearrangement of the other.
pub data Rearranged {ℓ} {A : Type ℓ} : List A → List A → Type ℓ where
  empty : Rearranged [] []
  keep : (x : A) {xs ys : List A} → Rearranged xs ys → Rearranged (x ∷ xs) (x ∷ ys)
  swap : (x y : A) (xs : List A) → Rearranged (x ∷ y ∷ xs) (y ∷ x ∷ xs)
  both : {xs ys zs : List A} → Rearranged xs ys → Rearranged ys zs → Rearranged xs zs

length-Rearranged {ℓ} : {A : Type ℓ} {xs ys : List A} → Rearranged xs ys → length xs ≡ length ys
length-Rearranged empty = refl
length-Rearranged (keep x r) = ap suc (length-Rearranged r)
length-Rearranged (swap x y xs) = refl
length-Rearranged (both r s) = length-Rearranged r ∙ length-Rearranged s

same_list {ℓ} : {A : Type ℓ} (xs : List A) → Rearranged xs xs
same_list [] = empty
same_list (x ∷ xs) = keep x (same_list xs)

module _ {K : Kube} where
  abbrev pub NewestFirst : List (VirtualMachine K) → Type 0
  NewestFirst [] = Unit
  NewestFirst (x ∷ xs) =
      All (λ (y : VirtualMachine K). y.meta.creation_timestamp ≤ x.meta.creation_timestamp) xs
      × NewestFirst xs

  All-drop :
      (Q : VirtualMachine K → Type 0) (n : ℕ) (xs : List (VirtualMachine K))
      → All Q xs
      → All Q (drop n xs)
  All-drop Q zero xs h = h
  All-drop Q (suc n) [] h = tt
  All-drop Q (suc n) (x ∷ xs) h = All-drop Q n xs h.1

  -- Each machine of the first part is at least as new as each of the second.
  abbrev pub NewerThan : List (VirtualMachine K) → List (VirtualMachine K) → Type 0
  NewerThan xs ys =
      All
        (λ (x : VirtualMachine K).
          All (λ (y : VirtualMachine K). y.meta.creation_timestamp ≤ x.meta.creation_timestamp) ys)
        xs

  take-NewerThan-drop :
      (n : ℕ) (xs : List (VirtualMachine K)) → NewestFirst xs → NewerThan (take n xs) (drop n xs)
  take-NewerThan-drop zero xs h = tt
  take-NewerThan-drop (suc n) [] h = tt
  take-NewerThan-drop (suc n) (x ∷ xs) h = (
    All-drop (λ (y : VirtualMachine K). y.meta.creation_timestamp ≤ x.meta.creation_timestamp) n xs
        h.0,
    take-NewerThan-drop n xs h.1,
  )

  -- What sort.Slice promises of its result: no element is less than one that stands before it.
  abbrev pub Sorted :
      (VirtualMachine K → VirtualMachine K → Bool) → List (VirtualMachine K) → Type 0
  Sorted less [] = Unit
  Sorted less (x ∷ xs) = All (λ (y : VirtualMachine K). less y x ≡ false) xs × Sorted less xs

  All-not-newer :
      (x : VirtualMachine K) (ys : List (VirtualMachine K))
      → All (λ (y : VirtualMachine K). creation_less false y x ≡ false) ys
      → All (λ (y : VirtualMachine K). y.meta.creation_timestamp ≤ x.meta.creation_timestamp) ys
  unfolding creation_less
  All-not-newer x [] h = tt
  All-not-newer x (y ∷ ys) h = (ground (arith, h.0), All-not-newer x ys h.1)

  Sorted-NewestFirst :
      (vms : List (VirtualMachine K)) → Sorted (creation_less false) vms → NewestFirst vms
  Sorted-NewestFirst [] h = tt
  Sorted-NewestFirst (x ∷ xs) h = (All-not-newer x xs h.0, Sorted-NewestFirst xs h.1)

  -- The machines that are given up, with those that are kept.
  pub record Chosen (vms : List (VirtualMachine K)) (diff : ℕ) (chosen : List (VirtualMachine K))
      : Type 0 where
    pub kept : List (VirtualMachine K)
    pub splits : Rearranged (chosen ++ kept) vms
    pub size : length chosen ≡ diff
    pub newer : NewerThan chosen kept

  take_all : (n : ℕ) (vms : List (VirtualMachine K)) → length vms ≡ n → take n vms ≡ vms
  take_all zero [] h = refl
  take_all (suc n) [] h = refl
  take_all zero (x ∷ xs) h = absurd (omega (arith, h))
  take_all (suc n) (x ∷ xs) h = ap (λ l. x ∷ l) (take_all n xs (omega (arith, h)))

  append_nil : (vms : List (VirtualMachine K)) → vms ++ [] ≡ vms
  append_nil [] = refl
  append_nil (x ∷ xs) = ap (λ l. x ∷ l) (append_nil xs)

  NewerThan-nil : (vms : List (VirtualMachine K)) → NewerThan vms []
  NewerThan-nil [] = tt
  NewerThan-nil (x ∷ xs) = (tt, NewerThan-nil xs)

  take-Chosen :
      (c : Calls K) (vms : List (VirtualMachine K)) (diff : ℕ)
      → Rearranged (sort_vms_by_creation_timestamp c vms false) vms
      → NewestFirst (sort_vms_by_creation_timestamp c vms false)
      → diff < length vms
      → Chosen vms diff (take diff (sort_vms_by_creation_timestamp c vms false))
  take-Chosen c vms diff same newest less =
      let sorted = sort_vms_by_creation_timestamp c vms false in
      record {
        kept = drop diff sorted;
        splits = subst (λ l. Rearranged l vms) (sym (take-append-drop diff sorted)) same;
        size = length-take diff sorted (omega (arith, length-Rearranged same));
        newer = take-NewerThan-drop diff sorted newest;
      }

  -- To give up a number of its machines, all of them at most, a replica set takes that many of them, and
  -- no machine that it keeps is newer than one that it gives up. The library's sort is assumed to
  -- rearrange its list so that no machine is less than one before it, by the order that it is given here.
  pub get_vms_to_delete-newest :
      (c : Calls K) (vms : List (VirtualMachine K)) (diff : ℕ)
      → Sorted (creation_less false) (c.sort (creation_less false) vms)
      → Rearranged (c.sort (creation_less false) vms) vms
      → diff ≤ length vms
      → Chosen vms diff (get_vms_to_delete c vms diff)
  unfolding get_vms_to_delete sort_vms_by_creation_timestamp
  get_vms_to_delete-newest c vms diff sorted same most = elim (Bool-cases (ltb diff (length vms))) [
    | inl e ↦
        subst (Chosen vms diff) (ground arith)
          (take-Chosen c vms diff same (Sorted-NewestFirst _ sorted) (ground arith))
    | inr e ↦
        let all = take_all diff vms (ground arith) in
        subst (Chosen vms diff) (sym (ground arith)) (record {
          kept = [];
          splits = subst (λ l. Rearranged l vms) (sym (append_nil vms)) (same_list vms);
          size = ground arith;
          newer = NewerThan-nil vms;
        })
  ]

  pub length-get_vms_to_delete :
      (c : Calls K) (vms : List (VirtualMachine K)) (diff : ℕ)
      → length (sort_vms_by_creation_timestamp c vms false) ≡ length vms
      → diff ≤ length vms
      → length (get_vms_to_delete c vms diff) ≡ diff
  unfolding get_vms_to_delete
  length-get_vms_to_delete c vms diff same most =
      let sorted = sort_vms_by_creation_timestamp c vms false in
      elim (Bool-cases (ltb diff (length vms))) [
        | inl e ↦ grind (arith, length-take diff sorted (omega arith))
        | inr e ↦ grind (arith, length-take diff vms most)
      ]

module _ {P : Stores} {K : Kube} (c : Calls K) where
  clean_from-panics_iff :
      (counter : ℕ) (rc : String) (vms : List (VirtualMachine K)) (s : Pass P)
      → (clean_from c counter rc vms s ≡ none) ↔ (counter < length vms)
  unfolding clean_from
  clean_from-panics_iff counter rc [] s = ground arith
  clean_from-panics_iff zero rc (vm ∷ vms) s = ground arith
  clean_from-panics_iff (suc counter) rc (vm ∷ vms) s = ground (
    arith,
    clean_from-panics_iff counter rc vms (delete_vm rc (object_key vm.meta) (c.delete vm) s),
  )

  -- Cleaning panics exactly when there are more than ten machines to clean, if each is cleaned once.
  pub clean_vms-panics_iff :
      (rc : String) (vms : List (VirtualMachine K)) (s : Pass P)
      → length (c.schedule vms) ≡ length vms
      → (clean_vms c rc vms s ≡ none) ↔ (burst_replicas < length vms)
  unfolding clean_vms
  clean_vms-panics_iff rc vms s same =
      let h = clean_from-panics_iff (capped (length vms)) rc (c.schedule vms) s in ground arith
