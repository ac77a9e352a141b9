-- ===== src/ReplicaSet/Scale.antt =====
-- How a replica set creates and deletes machines: `scaleVMs`, `cleanVMs`, `DeleteVM`, `createVM` and
-- `getVMsToDelete` of pkg/controller/vmrs_controller.go. The calls of one pass run concurrently, and
-- each touches the shared state only through the locked expectations, so a pass is a sequence of calls
-- in the order in which they complete. Events and the contents of the channel after its first error
-- are left out.
use virtink.Prelude.{
  ℕ, zero, suc, Bool, true, false, ltb, ◌==◌, String, Option, none, some, List, [], ◌∷◌, map,
  length, take, if◌then◌else◌,
}
use virtink.Prelude.Int.{ℤ, pos, negsuc}
use virtink.Api.{Kube, VirtualMachine}
use virtink.Expectations.Tracking.{
  Stores, Expectations, expect_creations, expect_deletions, creation_observed, deletion_observed,
}
use virtink.ReplicaSet.Objects.{object_key, Selectors, VirtualMachineReplicaSet}
use virtink.ReplicaSet.Status.{difference}

-- `createVM` fails when the controller reference is not set, before the server is called, or when the
-- server refuses the machine.
pub data CreateResult : Type 0 where
  created : CreateResult
  reference_failed : String → CreateResult
  create_failed : String → CreateResult

pub data DeleteResult : Type 0 where
  deleted : DeleteResult
  already_gone : DeleteResult
  delete_failed : String → DeleteResult

-- The answers to the calls of a pass: to the creations in their order of completion, and to the deletion
-- of each machine; `sort` is sort.Slice, which is given the order `less`; `schedule` the order in which
-- deletions complete.
pub record Calls (K : Kube) : Type 0 where
  pub create : ℕ → CreateResult
  pub delete : VirtualMachine K → DeleteResult
  pub sort :
      (VirtualMachine K → VirtualMachine K → Bool)
      → List (VirtualMachine K)
      → List (VirtualMachine K)
  pub schedule : List (VirtualMachine K) → List (VirtualMachine K)

-- What the calls of a pass have done so far, with the first error that was sent.
pub record Pass (P : Stores) : Type 0 where
  pub expectations : Expectations P
  pub created_count : ℕ
  pub deleted_keys : List String
  pub first_error : Option String

abbrev pub burst_replicas : ℕ
burst_replicas = 10

-- `int(math.Min(math.Abs(float64(diff)), float64(BurstReplicas)))`
abbrev pub capped : ℕ → ℕ
capped n = if ltb n burst_replicas then n else burst_replicas

-- One replica is wanted when the number is not given.
abbrev pub wanted_replicas : Option ℤ → ℤ
wanted_replicas none = pos 1
wanted_replicas (some r) = r

abbrev pub keep_first : Option String → String → Option String
keep_first none e = some e
keep_first (some d) e = some d

abbrev pub start : {P : Stores} → Expectations P → Pass P
start u = record { expectations = u; created_count = 0; deleted_keys = []; first_error = none }

module _ {K : Kube} where
  abbrev pub keys : List (VirtualMachine K) → List String
  keys vms = map (λ vm. object_key vm.meta) vms

  -- The two orders that machines are sorted by: by the creation of the machines, ascending or not.
  unfoldable pub creation_less : Bool → VirtualMachine K → VirtualMachine K → Bool
  creation_less true a b = ltb a.meta.creation_timestamp b.meta.creation_timestamp
  creation_less false a b = ltb b.meta.creation_timestamp a.meta.creation_timestamp

  unfoldable pub sort_vms_by_creation_timestamp :
      Calls K → List (VirtualMachine K) → Bool → List (VirtualMachine K)
  unfolding creation_less
  sort_vms_by_creation_timestamp c vms ascending = c.sort (creation_less ascending) vms

  unfoldable pub get_vms_to_delete : Calls K → List (VirtualMachine K) → ℕ → List (VirtualMachine K)
  unfolding sort_vms_by_creation_timestamp
  get_vms_to_delete c vms diff =
      if ltb diff (length vms)
      then take diff (sort_vms_by_creation_timestamp c vms false)
      else take diff vms

module _ {P : Stores} where
  unfoldable pub create_vm : String → CreateResult → Pass P → Pass P
  create_vm rc created s = record s { created_count = suc s.created_count }
  create_vm rc (reference_failed e) s = record s { first_error = keep_first s.first_error e }
  create_vm rc (create_failed e) s = record s {
    expectations = creation_observed rc s.expectations;
    first_error = keep_first s.first_error e;
  }

  unfoldable pub create_vms : String → (ℕ → CreateResult) → ℕ → Pass P → Pass P
  unfolding create_vm
  create_vms rc answer zero s = s
  create_vms rc answer (suc n) s = create_vm rc (answer n) (create_vms rc answer n s)

  -- A machine that is not found counts as deleted.
  unfoldable pub delete_vm : String → String → DeleteResult → Pass P → Pass P
  delete_vm rc key deleted s = record s { deleted_keys = key ∷ s.deleted_keys }
  delete_vm rc key already_gone s = record s { deleted_keys = key ∷ s.deleted_keys }
  delete_vm rc key (delete_failed e) s = record s {
    expectations = deletion_observed rc key s.expectations;
    first_error = keep_first s.first_error e;
  }

  unfoldable pub delete_vms :
      {K : Kube}
      → String
      → (VirtualMachine K → DeleteResult)
      → List (VirtualMachine K)
      → Pass P
      → Pass P
  unfolding delete_vm
  delete_vms rc answer [] s = s
  delete_vms rc answer (vm ∷ vms) s =
      delete_vms rc answer vms (delete_vm rc (object_key vm.meta) (answer vm) s)

module _ {P : Stores} {K : Kube} (c : Calls K) where
  unfoldable pub create_pass : ℕ → String → ℕ → Expectations P → Pass P
  unfolding create_vms
  create_pass now rc n u = create_vms rc c.create n (start (expect_creations now rc (pos n) u))

  unfoldable pub delete_pass : ℕ → String → ℕ → List (VirtualMachine K) → Expectations P → Pass P
  unfolding get_vms_to_delete delete_vms
  delete_pass now rc n vms u =
      let chosen = get_vms_to_delete c vms n in
      delete_vms rc c.delete (c.schedule chosen) (start (expect_deletions now rc (keys chosen) u))

  -- The pass for a difference: below, at and above zero.
  unfoldable pub scale_by : ℕ → String → ℤ → List (VirtualMachine K) → Expectations P → Pass P
  unfolding create_pass delete_pass
  scale_by now rc (negsuc d) vms u = create_pass now rc (capped (suc d)) u
  scale_by now rc (pos d) vms u = if d == 0 then start u else delete_pass now rc (capped d) vms u

  unfoldable pub scale_vms :
      {L : Selectors}
      → ℕ
      → VirtualMachineReplicaSet K L
      → List (VirtualMachine K)
      → Expectations P
      → Pass P
  unfolding scale_by
  scale_vms now vmrs vms u =
      scale_by now (object_key vmrs.meta)
        (difference (length vms) (wanted_replicas vmrs.spec.replicas)) vms u

  -- `cleanVMs` adds at most ten to its wait group and runs one call for each machine: the calls that
  -- are left over make the counter of the group negative, which is a panic, `none`.
  unfoldable pub clean_from : ℕ → String → List (VirtualMachine K) → Pass P → Option (Pass P)
  clean_from counter rc [] s = some s
  clean_from zero rc (vm ∷ vms) s = none
  clean_from (suc counter) rc (vm ∷ vms) s =
      clean_from counter rc vms (delete_vm rc (object_key vm.meta) (c.delete vm) s)

  unfoldable pub clean_vms : String → List (VirtualMachine K) → Pass P → Option (Pass P)
  unfolding clean_from
  clean_vms rc vms s = clean_from (capped (length vms)) rc (c.schedule vms) s
