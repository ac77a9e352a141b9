-- ===== src/Machine/Monad.antt =====
-- The calls that the controller of virtual machines makes, and code that makes them. A run has the machine
-- in memory, which the code changes, and the calls that it has made, the last one first. The answer to a
-- call may depend on all calls before it and on the call itself: so others may change the cluster between
-- any two calls.
use virtink.Prelude.{ℕ, Bool, String, Option, List, ◌∷◌}
use virtink.Api.{Kube, VirtualMachine, ObjectMeta, Pod, Claim, Condition, VolumeStatus}
use virtink.Client.{GetResult}

pub data Call (K : Kube) : Type 0 where
  get_pod : String → Call K
  list_vm_pods : String → Call K
  list_pods : String → Call K
  create_pod : Pod K → Call K
  delete_pod : Pod K → Call K
  update_vm : VirtualMachine K → Call K
  get_claim : String → Call K
  get_network : String → Call K
  generate_name : String → Call K

-- The configuration of a network attachment (a NetworkAttachmentDefinition): its resource name, or "",
-- and its configuration as `json.Unmarshal` reads it, if it does.
pub record VhostConfig : Type 0 where
  pub type_name : String
  pub socket_volume_name : String
  pub socket_name : String

pub record NetworkDefinition : Type 0 where
  pub resource_name : String
  pub config : Option VhostConfig

pub data DeleteResult : Type 0 where
  deleted : DeleteResult
  already_gone : DeleteResult
  delete_failed : String → DeleteResult

-- The answers of the cluster. A list is `none` if it fails, and so is an update; an update that succeeds
-- gives the machine as the server has it. `is_populated` is that of the containerized data importer.
pub record Cluster (K : Kube) : Type 0 where
  pub pod : List (Call K) → String → String → GetResult (Pod K)
  pub vm_pods : List (Call K) → String → Option (List (Pod K))
  pub pods : List (Call K) → String → Option (List (Pod K))
  pub create : List (Call K) → Pod K → Option String
  pub delete : List (Call K) → Pod K → DeleteResult
  pub update : List (Call K) → VirtualMachine K → Option (VirtualMachine K)
  pub claim : List (Call K) → String → String → GetResult Claim
  pub is_populated : List (Call K) → Claim → Option Bool
  pub network : List (Call K) → String → String → GetResult NetworkDefinition
  pub name : List (Call K) → String → String
  -- controllerutil.SetControllerReference of an owner and an object, on their metadata
  pub set_reference : ObjectMeta → ObjectMeta → Option ObjectMeta
  -- meta.FindStatusCondition and meta.SetStatusCondition
  pub find_condition : List Condition → String → Option Condition
  pub set_condition : List Condition → Condition → List Condition
  -- sort.Slice by creation, the newest pod first, and the order in which a map is run through
  pub newest_first : List (Pod K) → List (Pod K)
  pub any_order : List (String × VolumeStatus) → List (String × VolumeStatus)

-- `requeue_later` is the `reconcileError` of pkg/controller/errors.go, in seconds.
pub data Error : Type 0 where
  requeue_later : ℕ → Error
  fails_with : String → Error
  panics : Error

pub record State (K : Kube) : Type 0 where
  pub vm : VirtualMachine K
  pub calls : List (Call K)

pub data Outcome {ℓ} (K : Kube) (A : Type ℓ) : Type ℓ where
  returned : A → State K → Outcome K A
  raised : Error → State K → Outcome K A

abbrev pub M {ℓ} : Kube → Type ℓ → Type ℓ
M K A = State K → Outcome K A

module _ {ℓ κ} {K : Kube} {A : Type ℓ} {B : Type κ} where
  abbrev pub and_then : Outcome K A → (A → M K B) → Outcome K B
  and_then (returned a s) f = f a s
  and_then (raised e s) f = raised e s

  infixl 5 ◌>>=◌
  unfoldable pub ◌>>=◌ : M K A → (A → M K B) → M K B
  ◌>>=◌ m f s = and_then (m s) f

infixl 5 ◌>>◌
unfoldable pub ◌>>◌ {ℓ} : {K : Kube} {B : Type ℓ} → M K (Unit {0}) → M K B → M K B
◌>>◌ m k = m >>= λ _. k

module _ {K : Kube} where
  unfoldable pub pure {ℓ} : {A : Type ℓ} → A → M K A
  pure a s = returned a s

  unfoldable pub raise {ℓ} : {A : Type ℓ} → Error → M K A
  raise e s = raised e s

  -- The machine, and a change of it.
  unfoldable pub current : M K (VirtualMachine K)
  current s = returned (s.vm) s

  unfoldable pub put : VirtualMachine K → M K (Unit {0})
  put vm s = returned tt (record s { vm = vm })

  unfoldable pub call : Call K → M K (List (Call K))
  call c s = returned (s.calls) (record s { calls = c ∷ s.calls })

  unfoldable pub when_do : Bool → M K (Unit {0}) → M K (Unit {0})
  when_do Bool.true m s = m s
  when_do Bool.false m s = returned tt s

  -- The state at the end, also after an error.
  abbrev pub final {ℓ} : {A : Type ℓ} → Outcome K A → State K
  final (returned a s) = s
  final (raised e s) = s
