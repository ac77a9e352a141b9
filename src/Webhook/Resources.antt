-- ===== src/Webhook/Resources.antt =====
-- The checks of `ValidateVMSpec` on resource requests and limits, and reading a resource list.
use virtink.Prelude.{
  ◌*◌, ◌%◌, ◌^◌, not, ◌&&◌, is_some, String, Option, none, some, List, [], ◌∷◌, ◌++◌, if◌then◌else◌,
}
use virtink.Prelude.Int.{ℤ, pos, eqb_ℤ}
use virtink.Prelude.Map.{lookup}
use Prim.Native.String.{◌++◌ as str_append}
use virtink.Api.{Kube, VirtualMachineSpec, Cpu, Hugepages}
use virtink.Field.{FieldPath, child, ErrorType, ErrorList, when}
use virtink.Webhook.Cidr.{error_at}

-- Reading a map that may be nil.
abbrev pub lookup_in {ℓ} : {V : Type ℓ} → String → Option (List (String × V)) → Option V
lookup_in k none = none
lookup_in k (some m) = lookup k m

module _ (K : Kube) where
  abbrev pub quantity_or_zero : Option K.Quantity → K.Quantity
  quantity_or_zero none = K.zero_quantity
  quantity_or_zero (some q) = q

  -- `rl.Cpu()` and `rl.Memory()`; a missing name reads as a zero quantity
  abbrev pub cpu_of : Option (List (String × K.Quantity)) → K.Quantity
  cpu_of rl = quantity_or_zero (lookup_in "cpu" rl)

  abbrev pub memory_of : Option (List (String × K.Quantity)) → K.Quantity
  memory_of rl = quantity_or_zero (lookup_in "memory" rl)

  abbrev pub memory_overhead : K.Quantity
  memory_overhead = K.must_parse "256Mi"

abbrev pub vcpus : Cpu → ℤ
vcpus c = pos (c.sockets * c.cores_per_socket % 2 ^ 32)

-- "hugepages-<size>"
abbrev pub hugepages_name : Hugepages → String
hugepages_name h = str_append "hugepages-" h.page_size

abbrev pub resource_path : FieldPath → String → String → FieldPath
resource_path p list name = child name ∷ child list ∷ p

module _ {K : Kube} where
  unfoldable pub check_dedicated : VirtualMachineSpec K → FieldPath → ErrorList
  check_dedicated s p =
      let requests = s.resources.requests in
      let limits = s.resources.limits in
      let overhead = memory_overhead K in
      let required =
        if is_some s.instance_spec.memory.hugepages
        then overhead
        else K.add overhead s.instance_spec.memory.size in
      (if K.is_zero (cpu_of K requests)
        then error_at ErrorType.required (resource_path p "resources.requests" "cpu") ∷ []
        else when (not (eqb_ℤ (K.value (cpu_of K requests)) (vcpus s.instance_spec.cpu)))
            (error_at ErrorType.invalid (resource_path p "resources.requests" "cpu")))
      ++ ((if K.is_zero (cpu_of K limits)
            then error_at ErrorType.required (resource_path p "resources.limits" "cpu") ∷ []
            else when (not (K.equal (cpu_of K limits) (cpu_of K requests)))
                (error_at ErrorType.invalid (resource_path p "resources.limits" "cpu")))
          ++ ((if K.is_zero (memory_of K requests)
                then error_at ErrorType.required (resource_path p "resources.requests" "memory")
                  ∷ []
                else when (K.less (memory_of K requests) required)
                    (error_at ErrorType.invalid (resource_path p "resources.requests" "memory")))
              ++ (if K.is_zero (memory_of K limits)
                  then error_at ErrorType.required (resource_path p "resources.limits" "memory")
                    ∷ []
                  else when (not (K.equal (memory_of K limits) (memory_of K requests)))
                      (error_at ErrorType.invalid (resource_path p "resources.limits" "memory")))))

module _ (K : Kube) where
  -- A hugepages resource: it must be given, and equal to another quantity.
  abbrev pub check_equal : Option K.Quantity → K.Quantity → FieldPath → ErrorList
  check_equal none q p = error_at ErrorType.required p ∷ []
  check_equal (some r) q p = when (not (K.equal r q)) (error_at ErrorType.invalid p)

module _ {K : Kube} where
  unfoldable pub check_hugepages : VirtualMachineSpec K → Hugepages → FieldPath → ErrorList
  check_hugepages s h p =
      let requests = s.resources.requests in
      let limits = s.resources.limits in
      let name = hugepages_name h in
      let request = lookup_in name requests in
      when
        (K.is_zero (cpu_of K limits)
          && (K.is_zero (memory_of K limits)
              && (K.is_zero (cpu_of K requests) && K.is_zero (memory_of K requests))))
        (error_at ErrorType.forbidden (child "resources" ∷ p))
      ++ (check_equal K request s.instance_spec.memory.size
            (resource_path (child "resources" ∷ p) "requests" name)
          ++ check_equal K (lookup_in name limits) (quantity_or_zero K request)
              (resource_path (child "resources" ∷ p) "limits" name))
