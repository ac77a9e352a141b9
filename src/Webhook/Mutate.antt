-- ===== src/Webhook/Mutate.antt =====
-- `MutateVM`, the defaults that the mutating webhook fills in.
use virtink.Prelude.{
  ℕ, suc, ◌==◌, not, ◌&&◌, ◌||◌, is_some, if◌then◌else◌, String, str_eq, Option, none, some, List,
  [], ◌∷◌,
}
use virtink.Prelude.Map.{lookup, insert}
use virtink.Prelude.Text.{mac_string}
use virtink.Api.{
  Kube, RunPolicy, Cpu, Memory, Hugepages, Interface, InterfaceBindingMethod, InterfaceMasquerade,
  ResourceRequirements, Instance, VirtualMachineSpec, VirtualMachine,
}
use virtink.Admission.{Operation, Request, Response, errored, bad_request, internal_server_error}
use virtink.Webhook.Resources.{cpu_of, memory_of, memory_overhead, vcpus, hugepages_name}

abbrev pub default_run_policy : RunPolicy → RunPolicy
default_run_policy RunPolicy.unset = RunPolicy.once
default_run_policy p = p

unfoldable pub default_cpu : Cpu → Cpu
default_cpu c = record c {
  sockets = if c.sockets == 0 then 1 else c.sockets;
  cores_per_socket = if c.cores_per_socket == 0 then 1 else c.cores_per_socket;
}

module _ (K : Kube) where
  unfoldable pub default_memory_size : ResourceRequirements K → Memory K → Memory K
  default_memory_size r m =
      if K.is_zero m.size
      then record m {
        size =
            if not (K.is_zero (memory_of K r.requests))
            then memory_of K r.requests
            else K.must_parse "1Gi";
      }
      else m

  -- What dedicated CPUs ask for: the virtual CPUs, and the overhead with the memory that is not in
  -- huge pages.
  abbrev pub dedicated_memory : Memory K → K.Quantity
  dedicated_memory m =
      if not (K.is_zero m.size) && not (is_some m.hugepages)
      then K.add (memory_overhead K) m.size
      else memory_overhead K

  -- A nil list becomes the whole default list; in another one the two names are filled in where they
  -- read as zero.
  abbrev pub fill_list :
      K.Quantity
      → K.Quantity
      → Option (List (String × K.Quantity))
      → Option (List (String × K.Quantity))
  fill_list cpu memory none = some (("cpu", cpu) ∷ ("memory", memory) ∷ [])
  fill_list cpu memory (some m) =
      let with_cpu = if K.is_zero (cpu_of K (some m)) then insert "cpu" cpu m else m in
      some (
        if K.is_zero (memory_of K (some with_cpu))
        then insert "memory" memory with_cpu
        else with_cpu)

  -- In the code two lists that are nil become one shared map. Later writes put the same value under
  -- the same name in both, so separate maps hold the same.
  unfoldable pub default_dedicated : Instance K → ResourceRequirements K → ResourceRequirements K
  default_dedicated s r =
      let cpu = K.new_quantity (vcpus s.cpu) in
      let memory = dedicated_memory s.memory in
      if s.cpu.dedicated_cpu_placement
      then record r {
        requests = fill_list cpu memory r.requests;
        limits = fill_list cpu memory r.limits;
      }
      else r

  abbrev list_or_empty : Option (List (String × K.Quantity)) → List (String × K.Quantity)
  list_or_empty none = []
  list_or_empty (some m) = m

  abbrev insert_missing :
      Option K.Quantity
      → String
      → K.Quantity
      → List (String × K.Quantity)
      → List (String × K.Quantity)
  insert_missing none k q m = insert k q m
  insert_missing (some _) k q m = m

  abbrev found_or : Option K.Quantity → K.Quantity → K.Quantity
  found_or none d = d
  found_or (some q) d = q

  unfoldable pub default_pages :
      Memory K → Option Hugepages → ResourceRequirements K → ResourceRequirements K
  default_pages m none r = r
  default_pages m (some h) r =
      let name = hugepages_name h in
      let old_limits = list_or_empty r.limits in
      let limit = found_or (lookup name old_limits) m.size in
      let limits = insert_missing (lookup name old_limits) name limit old_limits in
      let old_requests = list_or_empty r.requests in
      let requests = insert_missing (lookup name old_requests) name limit old_requests in
      record r {
        limits = some limits;
        requests = some (
            if K.is_zero (cpu_of K (some limits))
              && (K.is_zero (memory_of K (some limits))
                  && (K.is_zero (cpu_of K (some requests))
                      && K.is_zero (memory_of K (some requests))))
            then insert "memory" (memory_overhead K) requests
            else requests);
      }

-- `generateMAC`: three random bytes behind a fixed prefix.
unfoldable pub generate_mac : Option (ℕ × ℕ × ℕ) → Option String
unfolding mac_string
generate_mac none = none
generate_mac (some (a, b, c)) = some (mac_string (0x52 ∷ 0x54 ∷ 0x00 ∷ a ∷ b ∷ c ∷ []))

-- The MAC of the old interface with a name, if there is one: the first such interface decides.
unfoldable pub old_mac : String → List Interface → String
old_mac name [] = ""
old_mac name (i ∷ is) = if str_eq i.name name then i.mac else old_mac name is

unfoldable pub default_binding : InterfaceBindingMethod → InterfaceBindingMethod
default_binding b =
    if is_some b.bridge
      || (is_some b.masquerade || (is_some b.sriov || (is_some b.vdpa || is_some b.vhost_user)))
    then b
    else record {
      bridge = some tt;
      masquerade = none;
      sriov = none;
      vdpa = none;
      vhost_user = none;
    }

abbrev pub default_masquerade : Option InterfaceMasquerade → Option InterfaceMasquerade
default_masquerade none = none
default_masquerade (some m) = some (if str_eq m.cidr "" then record { cidr = "10.0.2.0/30" } else m)

-- A round of the loop over the interfaces. `random` gives the bytes of the n-th read of the random
-- source, or fails, and `n` counts the reads; `olds` are the interfaces of the old machine.
abbrev pub finish_interface : Interface → String → Interface
finish_interface i mac =
    let b = default_binding i.binding in
    record i { mac = mac; binding = record b { masquerade = default_masquerade b.masquerade } }

unfoldable pub default_interfaces :
    (ℕ → Option (ℕ × ℕ × ℕ)) → ℕ → List Interface → List Interface → Option (List Interface)
default_interfaces random n olds [] = some []
default_interfaces random n olds (i ∷ is) =
    let given = if str_eq i.mac "" then old_mac i.name olds else i.mac in
    let keep = default_interfaces random n olds is in
    let next = default_interfaces random (suc n) olds is in
    if str_eq given ""
    then elim (generate_mac (random n)) [
      | none ↦ none
      | some mac ↦ elim next [ none ↦ none | some rest ↦ some (finish_interface i mac ∷ rest) ]
    ]
    else elim keep [ none ↦ none | some rest ↦ some (finish_interface i given ∷ rest) ]

module _ {K : Kube} where
  -- The specification with every default but those of the interfaces, in the order of the code: the
  -- resources are read once before and once after the memory size is known.
  unfoldable pub default_spec : VirtualMachineSpec K → VirtualMachineSpec K
  default_spec s =
      let cpu = default_cpu s.instance_spec.cpu in
      let memory = default_memory_size K s.resources s.instance_spec.memory in
      let t = record (s.instance_spec) { cpu = cpu; memory = memory } in
      let dedicated = default_dedicated K t s.resources in
      record s {
        run_policy = default_run_policy s.run_policy;
        instance_spec = t;
        resources = default_pages K memory memory.hugepages dedicated;
      }

  abbrev pub old_interfaces : Option (VirtualMachine K) → List Interface
  old_interfaces none = []
  old_interfaces (some old) = old.spec.instance_spec.interfaces

  -- `MutateVM`; `none` is the error of a random source that fails.
  unfoldable pub mutate_vm :
      (ℕ → Option (ℕ × ℕ × ℕ))
      → VirtualMachine K
      → Option (VirtualMachine K)
      → Option (VirtualMachine K)
  mutate_vm random vm old =
      let s = default_spec vm.spec in
      elim (default_interfaces random 0 (old_interfaces old) s.instance_spec.interfaces) [
        | none ↦ none
        | some is ↦ some (record vm {
          spec = record s { instance_spec = record (s.instance_spec) { interfaces = is } };
        })
      ]

-- What the mutating webhook answers: the mutated machine, from which the patch is made, or a plain
-- response.
pub data MutationResponse (K : Kube) : Type 0 where
  patched : VirtualMachine K → MutationResponse K
  plain : Response → MutationResponse K

module _ {K : Kube} (random : ℕ → Option (ℕ × ℕ × ℕ)) where
  abbrev patch_or_error : Option (VirtualMachine K) → MutationResponse K
  patch_or_error none = plain (errored internal_server_error)
  patch_or_error (some vm) = patched vm

  mutate_object : Operation → VirtualMachine K → Option (VirtualMachine K) → MutationResponse K
  unfolding mutate_vm
  mutate_object Operation.create vm old = patch_or_error (mutate_vm random vm none)
  mutate_object Operation.update vm none = plain (errored bad_request)
  mutate_object Operation.update vm (some old) = patch_or_error (mutate_vm random vm (some old))
  mutate_object Operation.other_operation vm old = plain Response.allowed

  mutate_decoded :
      Operation → Option (VirtualMachine K) → Option (VirtualMachine K) → MutationResponse K
  unfolding mutate_object
  mutate_decoded op none old = plain (errored bad_request)
  mutate_decoded op (some vm) old = mutate_object op vm old

  -- `VMMutator.Handle`
  unfoldable pub handle_mutation : Request (VirtualMachine K) → MutationResponse K
  unfolding mutate_decoded
  handle_mutation r = mutate_decoded r.operation r.object r.old_object
