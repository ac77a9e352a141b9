-- ===== src/Webhook/Spec.antt =====
-- `ValidateVMSpec`, and which specifications it accepts.
use virtink.Prelude.{
  ◌≡◌, ◌↔◌, refl, Bool, true, false, is_some, Option, none, some, [], ◌∷◌, ◌++◌, ◌&&◌, map, arith,
  All, append-eq-nil, if◌then◌else◌,
}
use virtink.Prelude.Int.{eqb_ℤ_iff}
use virtink.Api.{Kube, Volume, Network, Hugepages, VirtualMachineSpec}
use virtink.Field.{FieldPath, child, ErrorType, ErrorList, when, when-eq-nil}
use virtink.Webhook.Cidr.{Net, error_at}
use virtink.Webhook.Names.{each_named, AllDistinct, each_named-nil_iff}
use virtink.Webhook.Exclusive.{IfGiven, append_five}
use virtink.Webhook.Instance.{at, duplicate_name, validate_instance}
use virtink.Webhook.InstanceValid.{ValidInstance, validate_instance-nil_iff}
use virtink.Webhook.Volume.{validate_volume}
use virtink.Webhook.VolumeValid.{ValidVolume, validate_volume-nil_iff}
use virtink.Webhook.Network.{validate_network, ValidNetwork, validate_network-nil_iff}
use virtink.Webhook.Resources.{
  check_dedicated, check_equal, resource_path, check_hugepages, lookup_in, cpu_of, memory_of,
  quantity_or_zero, memory_overhead, vcpus, hugepages_name,
}

module _ {K : Kube} where
  abbrev check_pages_resources : VirtualMachineSpec K → Option Hugepages → FieldPath → ErrorList
  check_pages_resources s none p = []
  check_pages_resources s (some h) p = check_hugepages s h p

  unfoldable pub validate_vm_spec : Net → Option (VirtualMachineSpec K) → FieldPath → ErrorList
  validate_vm_spec net none p = error_at ErrorType.required p ∷ []
  validate_vm_spec net (some s) p =
      (if s.instance_spec.cpu.dedicated_cpu_placement then check_dedicated s p else [])
      ++ (check_pages_resources s s.instance_spec.memory.hugepages p
          ++ (validate_instance net (some (s.instance_spec)) (child "instance" ∷ p)
              ++ (each_named (λ v. v.name) (λ i v. duplicate_name (at p "volumes" i))
                    (λ i v. validate_volume (some v) (at p "volumes" i)) [] 0 s.volumes
                  ++ each_named (λ n. n.name) (λ i n. duplicate_name (at p "networks" i))
                      (λ i n. validate_network (some n) (at p "networks" i)) [] 0 s.networks)))

  -- Dedicated CPUs: the request is the number of virtual CPUs, the memory request covers the overhead
  -- and, without huge pages, the memory of the machine, and the limits equal the requests.
  abbrev pub ValidDedicated : VirtualMachineSpec K → Type 0
  ValidDedicated s =
      let requests = s.resources.requests in
      let limits = s.resources.limits in
      let overhead = memory_overhead K in
      let required =
        if is_some s.instance_spec.memory.hugepages
        then overhead
        else K.add overhead s.instance_spec.memory.size in
      (K.is_zero (cpu_of K requests) ≡ false)
      × (K.value (cpu_of K requests) ≡ vcpus s.instance_spec.cpu)
      × (K.is_zero (cpu_of K limits) ≡ false)
      × (K.equal (cpu_of K limits) (cpu_of K requests) ≡ true)
      × (K.is_zero (memory_of K requests) ≡ false)
      × (K.less (memory_of K requests) required ≡ false)
      × (K.is_zero (memory_of K limits) ≡ false)
      × (K.equal (memory_of K limits) (memory_of K requests) ≡ true)

  check_dedicated-nil_iff :
      (s : VirtualMachineSpec K) (p : FieldPath) → (check_dedicated s p ≡ []) ↔ ValidDedicated s
  unfolding check_dedicated
  check_dedicated-nil_iff s p =
      ground
        (arith, eqb_ℤ_iff (K.value (cpu_of K s.resources.requests)) (vcpus s.instance_spec.cpu))

module _ (K : Kube) where
  -- A quantity that is given and equals another.
  abbrev pub GivenEqual : Option K.Quantity → K.Quantity → Type 0
  GivenEqual none q = ⊥
  GivenEqual (some r) q = K.equal r q ≡ true

  check_equal-nil_iff :
      (r : Option K.Quantity) (q : K.Quantity) (p : FieldPath)
      → (check_equal K r q p ≡ []) ↔ GivenEqual r q
  check_equal-nil_iff none q p = ground arith
  check_equal-nil_iff (some r) q p = ground arith

module _ {K : Kube} where
  -- Huge pages: some CPU or memory is asked for, the request of huge pages equals the memory of the
  -- machine, and the limit the request.
  abbrev pub ValidPages : VirtualMachineSpec K → Hugepages → Type 0
  ValidPages s h =
      let requests = s.resources.requests in
      let limits = s.resources.limits in
      let request = lookup_in (hugepages_name h) requests in
      (K.is_zero (cpu_of K limits)
          && (K.is_zero (memory_of K limits)
              && (K.is_zero (cpu_of K requests) && K.is_zero (memory_of K requests)))
        ≡ false)
      × GivenEqual K request s.instance_spec.memory.size
      × GivenEqual K (lookup_in (hugepages_name h) limits) (quantity_or_zero K request)

  check_hugepages-nil_iff :
      (s : VirtualMachineSpec K) (h : Hugepages) (p : FieldPath)
      → (check_hugepages s h p ≡ []) ↔ ValidPages s h
  unfolding check_hugepages
  check_hugepages-nil_iff s h p =
      let request = lookup_in (hugepages_name h) s.resources.requests in
      let limit = lookup_in (hugepages_name h) s.resources.limits in
      let size = s.instance_spec.memory.size in
      let request_path = resource_path (child "resources" ∷ p) "requests" (hugepages_name h) in
      let limit_path = resource_path (child "resources" ∷ p) "limits" (hugepages_name h) in
      let first = check_equal-nil_iff K request size request_path in
      let second = check_equal-nil_iff K limit (quantity_or_zero K request) limit_path in
      let joined =
        append-eq-nil (check_equal K request size request_path)
          (check_equal K limit (quantity_or_zero K request) limit_path) in
      let asks =
        when-eq-nil
          (K.is_zero (cpu_of K s.resources.limits)
            && (K.is_zero (memory_of K s.resources.limits)
                && (K.is_zero (cpu_of K s.resources.requests)
                    && K.is_zero (memory_of K s.resources.requests))))
          (error_at ErrorType.forbidden (child "resources" ∷ p)) in
      let all = append-eq-nil (when _ _) _ in
      (
        λ e. let (a, b) = all.0 e in let (c, d) = joined.0 b in (asks.0 a, first.0 c, second.0 d),
        λ v. all.1 (asks.1 v.0, joined.1 (first.1 v.1, second.1 v.2)),
      )

  abbrev pub ValidSpec : Net → VirtualMachineSpec K → Type 0
  ValidSpec net s =
      (s.instance_spec.cpu.dedicated_cpu_placement ≡ true → ValidDedicated s)
      × IfGiven (ValidPages s) s.instance_spec.memory.hugepages
      × ValidInstance net s.instance_spec
      × (AllDistinct (map (λ v. v.name) s.volumes) × All ValidVolume s.volumes)
      × (AllDistinct (map (λ n. n.name) s.networks) × All ValidNetwork s.networks)

  dedicated-nil_iff :
      (b : Bool) (s : VirtualMachineSpec K) (p : FieldPath)
      → ((if b then check_dedicated s p else []) ≡ []) ↔ (b ≡ true → ValidDedicated s)
  dedicated-nil_iff true s p =
      let e = check_dedicated-nil_iff s p in (λ h _. e.0 h, λ h. e.1 (h refl))
  dedicated-nil_iff false s p = (λ _ h. cc, λ _. refl)

  pages-nil_iff :
      (o : Option Hugepages) (s : VirtualMachineSpec K) (p : FieldPath)
      → (check_pages_resources s o p ≡ []) ↔ IfGiven (ValidPages s) o
  pages-nil_iff none s p = (λ _. tt, λ _. refl)
  pages-nil_iff (some h) s p = check_hugepages-nil_iff s h p

  -- A specification is accepted exactly when its resources fit dedicated CPUs and huge pages, its
  -- instance is valid, and its volumes and its networks have distinct names and are valid.
  pub validate_vm_spec-nil_iff :
      (net : Net) (s : VirtualMachineSpec K) (p : FieldPath)
      → (validate_vm_spec net (some s) p ≡ []) ↔ ValidSpec net s
  unfolding validate_vm_spec
  validate_vm_spec-nil_iff net s p =
      let dedicated = dedicated-nil_iff s.instance_spec.cpu.dedicated_cpu_placement s p in
      let pages = pages-nil_iff s.instance_spec.memory.hugepages s p in
      let whole = validate_instance-nil_iff net s.instance_spec (child "instance" ∷ p) in
      let volumes =
        each_named-nil_iff (λ (v : Volume K). v.name) (λ i v. duplicate_name (at p "volumes" i))
          (λ i v. validate_volume (some v) (at p "volumes" i)) ValidVolume
          (λ i v. validate_volume-nil_iff v _) s.volumes in
      let networks =
        each_named-nil_iff (λ (n : Network). n.name) (λ i n. duplicate_name (at p "networks" i))
          (λ i n. validate_network (some n) (at p "networks" i)) ValidNetwork
          (λ i n. validate_network-nil_iff n _) s.networks in
      let parts = append_five _ _ _ _ _ in
      (
        λ h.
            let (a, b, c, d, e) = parts.0 h in
            (dedicated.0 a, pages.0 b, whole.0 c, volumes.0 d, networks.0 e),
        λ h. parts.1 (dedicated.1 h.0, pages.1 h.1, whole.1 h.2, volumes.1 h.3, networks.1 h.4),
      )
