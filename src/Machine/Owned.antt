-- ===== src/Machine/Owned.antt =====
-- Whose pods the controller deletes and creates for hotplug volumes: `handleHotplugVolumes` of
-- pkg/controller/vm_controller.go.
use virtink.Prelude.{
  ◌≡◌, refl, Bool, true, false, String, Option, none, some, List, [], ◌∷◌, All, select,
  if◌then◌else◌,
}
use virtink.Api.{Kube, VirtualMachine, Volume, Pod, ObjectMeta, Claim}
use virtink.Client.{GetResult, found, not_found, failed}
use virtink.Machine.Monad.{
  Cluster, State, final, Call, get_pod, list_vm_pods, list_pods, create_pod, delete_pod, update_vm,
  get_claim, get_network, generate_name,
}
use virtink.Machine.Ensures.{Ensures, after-Ensures, pure-Ensures, raise-Ensures}
use virtink.Machine.Makes.{
  Adds, Makes, bind-Makes, bind_ensured-Makes, then-Makes, pure-Makes, raise-Makes, call-Makes,
  if-Makes, when_do-Makes,
}
use virtink.Machine.Claims.{
  claim_result, get_pvc, populated_result, claim_ready, is_ready, claim_is_block, is_block,
}
use virtink.Machine.Hotplug.{
  is_controlled_by, is_pod_match, split_pods, pods_result, get_hotplug_volume_pods, create_result,
  create, filter_ready,
}
use virtink.Machine.VolumePods.{
  volume_pod, add_volumes, reference_result, set_controller_reference, build_hotplug_volume_pod,
  replace_pods, exchange_pods, handle_hotplug_volumes,
}
use virtink.Machine.Spares.{delete_pods-Makes}

abbrev pub Controlled : {K : Kube} → Pod K → Pod K → Type 0
Controlled owner p = is_controlled_by p.meta owner.meta ≡ true

-- A call that creates and deletes only pods that a pod controls, and does not update the machine.
abbrev pub Owned : {K : Kube} → Pod K → Call K → Type 0
Owned owner (delete_pod p) = Controlled owner p
Owned owner (create_pod p) = Controlled owner p
Owned owner (update_vm v) = ⊥
Owned owner (get_pod n) = Unit
Owned owner (list_vm_pods n) = Unit
Owned owner (list_pods n) = Unit
Owned owner (get_claim n) = Unit
Owned owner (get_network n) = Unit
Owned owner (generate_name n) = Unit

-- What the code relies on: sorting keeps the pods of an owner, and a controller reference names its owner.
pub record IsReliable {K : Kube} (c : Cluster K) : Type 0 where
  pub sorts :
      (owner : Pod K) (ps : List (Pod K))
      → All (Controlled owner) ps
      → All (Controlled owner) (c.newest_first ps)
  pub refers :
      (owner object m : ObjectMeta)
      → c.set_reference owner object ≡ some m
      → is_controlled_by m owner ≡ true

select-All {ℓ} : {A : Type ℓ} (p : A → Bool) (xs : List A) → All (λ x. p x ≡ true) (select p xs)
select-All p [] = tt
select-All p (x ∷ xs) = keep (p x) refl (select-All p xs)
  where
    keep :
        (b : Bool)
        → p x ≡ b
        → All (λ y. p y ≡ true) (select p xs)
        → All (λ y. p y ≡ true) (if b then x ∷ select p xs else select p xs)
    keep true e h = (e, h)
    keep false e h = h

module _ {K : Kube} (Q : Pod K → Type 0) where
  split_pods-All :
      (vs : List (Volume K)) (ps : List (Pod K)) → All Q ps → All Q (split_pods vs ps).1
  unfolding split_pods
  split_pods-All vs [] h = tt
  split_pods-All vs (p ∷ ps) h = keep (is_pod_match p vs) (split_pods-All vs ps h.1)
    where
      keep :
          (b : Bool)
          → All Q (split_pods vs ps).1
          → All Q
              (if◌then◌else◌ {A = Option (Pod K) × List (Pod K)} b
                (some p, ps)
                ((split_pods vs ps).0, p ∷ (split_pods vs ps).1)).1
      keep true k = h.1
      keep false k = (h.0, k)

module _ {K : Kube} (c : Cluster K) (owner : Pod K) where
  claim_result-Makes : (r : GetResult Claim) → Makes (Owned owner) (claim_result c r)
  unfolding claim_result
  claim_result-Makes (found p) = pure-Makes _ _
  claim_result-Makes not_found = pure-Makes _ _
  claim_result-Makes (failed e) = raise-Makes _ _

  get_pvc-Makes : (namespace : String) (v : Volume K) → Makes (Owned owner) (get_pvc c namespace v)
  unfolding get_pvc
  get_pvc-Makes namespace v =
      if-Makes (Owned owner) _ (raise-Makes _ _)
        (bind-Makes (Owned owner) (call-Makes _ _ tt) (λ calls. claim_result-Makes _))

  populated_result-Makes : (o : Option Bool) → Makes (Owned owner) (populated_result c o)
  unfolding populated_result
  populated_result-Makes none = raise-Makes _ _
  populated_result-Makes (some b) = pure-Makes _ _

  claim_ready-Makes : (p : Option Claim) → Makes (Owned owner) (claim_ready c p)
  unfolding claim_ready
  claim_ready-Makes none = pure-Makes _ _
  claim_ready-Makes (some p) =
      bind-Makes (Owned owner) (call-Makes _ _ tt) (λ calls. populated_result-Makes _)

  is_ready-Makes :
      (namespace : String) (v : Volume K) → Makes (Owned owner) (is_ready c namespace v)
  unfolding is_ready
  is_ready-Makes namespace v =
      if-Makes (Owned owner) _
        (bind-Makes (Owned owner) (get_pvc-Makes namespace v) claim_ready-Makes) (pure-Makes _ true)

  claim_is_block-Makes : (p : Option Claim) → Makes (Owned owner) (claim_is_block c p)
  unfolding claim_is_block
  claim_is_block-Makes none = raise-Makes _ _
  claim_is_block-Makes (some p) = pure-Makes _ _

  is_block-Makes :
      (namespace : String) (v : Volume K) → Makes (Owned owner) (is_block c namespace v)
  unfolding is_block
  is_block-Makes namespace v =
      bind-Makes (Owned owner) (get_pvc-Makes namespace v) claim_is_block-Makes

  filter_ready-Makes :
      (namespace : String) (vs : List (Volume K))
      → Makes (Owned owner) (filter_ready c namespace vs)
  unfolding filter_ready
  filter_ready-Makes namespace [] = pure-Makes _ _
  filter_ready-Makes namespace (v ∷ vs) =
      bind-Makes (Owned owner) (is_ready-Makes namespace v) (λ ready.
        bind-Makes (Owned owner) (filter_ready-Makes namespace vs) (λ rest. pure-Makes _ _))

  create_result-Makes : (e : Option String) → Makes (Owned owner) (create_result c e)
  unfolding create_result
  create_result-Makes none = pure-Makes _ _
  create_result-Makes (some e) = raise-Makes _ _

  create-Makes : (p : Pod K) → Controlled owner p → Makes (Owned owner) (create c p)
  unfolding create
  create-Makes p h =
      bind-Makes (Owned owner) (call-Makes _ (create_pod p) h) (λ calls. create_result-Makes _)

  pods_result-Makes : (o : Option (List (Pod K))) → Makes (Owned owner) (pods_result c owner o)
  unfolding pods_result
  pods_result-Makes none = raise-Makes _ _
  pods_result-Makes (some ps) = pure-Makes _ _

  get_hotplug_volume_pods-Makes : Makes (Owned owner) (get_hotplug_volume_pods c owner)
  unfolding get_hotplug_volume_pods
  get_hotplug_volume_pods-Makes =
      bind-Makes (Owned owner) (call-Makes _ _ tt) (λ calls. pods_result-Makes _)

  module _ (image : String) where
    add_volumes-Makes :
        (vm : VirtualMachine K) (vs : List (Volume K))
        → Makes (Owned owner) (add_volumes c image vm vs)
    unfolding add_volumes
    add_volumes-Makes vm [] = pure-Makes _ _
    add_volumes-Makes vm (v ∷ vs) =
        bind-Makes (Owned owner)
          (if-Makes (Owned owner) _ (pure-Makes _ false) (is_block-Makes vm.meta.namespace v))
          (λ block. bind-Makes (Owned owner) (add_volumes-Makes vm vs) (λ rest. pure-Makes _ _))

    reference_result-Makes :
        (p : Pod K) (m : Option ObjectMeta) → Makes (Owned owner) (reference_result c image p m)
    unfolding reference_result
    reference_result-Makes p none = raise-Makes _ _
    reference_result-Makes p (some m) = pure-Makes _ _

    build-Makes :
        (vm : VirtualMachine K) (vs : List (Volume K))
        → Makes (Owned owner) (build_hotplug_volume_pod c image vm owner vs)
    unfolding build_hotplug_volume_pod set_controller_reference
    build-Makes vm vs =
        bind-Makes (Owned owner) (add_volumes-Makes vm vs)
          (λ added. reference_result-Makes (volume_pod image vm owner added) _)

    module _ (reliable : IsReliable c) where
      pods_result-All :
          (o : Option (List (Pod K))) → Ensures (All (Controlled owner)) (pods_result c owner o)
      unfolding pods_result
      pods_result-All none = raise-Ensures _
      pods_result-All (some ps) = pure-Ensures _ (reliable.sorts owner _ (select-All _ ps))

      get_hotplug_volume_pods-All :
          Ensures (All (Controlled owner)) (get_hotplug_volume_pods c owner)
      unfolding get_hotplug_volume_pods
      get_hotplug_volume_pods-All = after-Ensures _ _ (λ calls. pods_result-All _)

      reference_result-Controlled :
          (p : Pod K) (m : Option ObjectMeta)
          → ((n : ObjectMeta) → m ≡ some n → is_controlled_by n owner.meta ≡ true)
          → Ensures (Controlled owner) (reference_result c image p m)
      unfolding reference_result
      reference_result-Controlled p none h = raise-Ensures _
      reference_result-Controlled p (some m) h = pure-Ensures _ (h m refl)

      build-Controlled :
          (vm : VirtualMachine K) (vs : List (Volume K))
          → Ensures (Controlled owner) (build_hotplug_volume_pod c image vm owner vs)
      unfolding build_hotplug_volume_pod set_controller_reference
      build-Controlled vm vs = after-Ensures _ _ (λ added.
          reference_result-Controlled (volume_pod image vm owner added) _
            (λ n e. reliable.refers owner.meta _ n e))

      replace_pods-Makes :
          (vm : VirtualMachine K) (ready : List (Volume K)) (present : Option (Pod K))
          (olds : List (Pod K))
          → All (Controlled owner) olds
          → Makes (Owned owner) (replace_pods c image vm owner ready (present, olds))
      unfolding replace_pods
      replace_pods-Makes vm ready present olds h =
          then-Makes (Owned owner)
            (when_do-Makes (Owned owner) _ (
              bind_ensured-Makes (Owned owner) (build-Controlled vm ready) (build-Makes vm ready)
                create-Makes))
            (delete_pods-Makes c (Owned owner) false olds h)

      exchange_pods-Makes :
          (vm : VirtualMachine K) (ready : List (Volume K))
          → Makes (Owned owner) (exchange_pods c image vm owner ready)
      unfolding exchange_pods
      exchange_pods-Makes vm ready =
          bind_ensured-Makes (Owned owner) get_hotplug_volume_pods-All get_hotplug_volume_pods-Makes
            (λ ps h.
              replace_pods-Makes vm ready (split_pods ready ps).0 (split_pods ready ps).1
                (split_pods-All (Controlled owner) ready ps h))

      handle-Makes :
          (vm : VirtualMachine K) (wait_all : Bool)
          → Makes (Owned owner) (handle_hotplug_volumes c image vm owner wait_all)
      unfolding handle_hotplug_volumes
      handle-Makes vm wait_all =
          bind-Makes (Owned owner) (filter_ready-Makes vm.meta.namespace _)
            (λ ready. if-Makes (Owned owner) _ (pure-Makes _ tt) (exchange_pods-Makes vm ready))

      -- Where sorting keeps the pods of an owner and a controller reference names its owner: whatever else
      -- the cluster answers, handling the hotplug volumes of a pod creates and deletes only pods that this
      -- pod controls, and makes no update of the machine.
      pub handle_hotplug_volumes-Owned :
          (vm : VirtualMachine K) (wait_all : Bool) (s : State K)
          → Adds
              (Owned owner)
              s.calls
              (final (handle_hotplug_volumes c image vm owner wait_all s)).calls
      handle_hotplug_volumes-Owned vm wait_all s = (handle-Makes vm wait_all).run s
