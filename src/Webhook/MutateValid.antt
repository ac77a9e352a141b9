-- ===== src/Webhook/MutateValid.antt =====
-- What `MutateVM` leaves: interfaces that are complete, and resources that pass validation.
use virtink.Prelude.{
  ℕ, suc, ◌*◌, ◌%◌, ◌^◌, ◌≤◌, ◌≡◌, ◌≢◌, refl, true, false, Bool-cases, ◌==◌, if◌then◌else◌, String,
  str_eq, str_eq_iff, Option, none, some, Option-cases, inl, inr, List, [], ◌∷◌, arith, Pointwise,
  nil, cons, ◌∙◌, subst, sym,
}
use mathlib.Core.Option.{some_inj}
use virtink.Prelude.Text.{mac_string-ne-nil}
use virtink.Prelude.Int.{pos}
use virtink.Api.{
  Kube, RunPolicy, Cpu, Interface, InterfaceMasquerade, VirtualMachineSpec, VirtualMachine,
  ResourceRequirements, Memory,
}
use virtink.Webhook.Exclusive.{IfGiven}
use virtink.Webhook.Interface.{methods}
use virtink.Webhook.Resources.{vcpus, memory_overhead}
use virtink.Webhook.Spec.{ValidDedicated}
use virtink.Webhook.InstanceValid.{ValidCpu}
use virtink.Webhook.Mutate.{
  default_cpu, default_masquerade, default_binding, generate_mac, old_mac, finish_interface,
  default_interfaces, default_run_policy, old_interfaces, default_spec, mutate_vm,
  default_dedicated, default_pages, default_memory_size,
}

generate_mac-ne-nil :
    (bytes : Option (ℕ × ℕ × ℕ)) (mac : String) → generate_mac bytes ≡ some mac → mac ≢ ""
unfolding generate_mac
generate_mac-ne-nil none mac h e = cc
generate_mac-ne-nil (some (a, b, c)) mac h e =
    mac_string-ne-nil 0x54 (0x00 ∷ a ∷ b ∷ c ∷ []) (some_inj.0 h ∙ e)

-- How an interface `j` completes the interface `i` of a request.
pub record Completes (olds : List Interface) (i j : Interface) : Type 0 where
  pub same_name : j.name ≡ i.name
  pub given_mac : i.mac ≢ "" → j.mac ≡ i.mac
  pub kept_mac : i.mac ≡ "" → old_mac i.name olds ≢ "" → j.mac ≡ old_mac i.name olds
  pub some_mac : j.mac ≢ ""
  pub some_method : 1 ≤ methods j.binding
  pub some_cidr : IfGiven (λ (m : InterfaceMasquerade). m.cidr ≢ "") j.binding.masquerade

default_binding-methods : (i : Interface) → 1 ≤ methods (default_binding i.binding)
unfolding default_binding
default_binding-methods i = ground arith

default_masquerade_cidr :
    (o : Option InterfaceMasquerade)
    → IfGiven (λ (m : InterfaceMasquerade). m.cidr ≢ "") (default_masquerade o)
default_masquerade_cidr none = tt
default_masquerade_cidr (some m) = ground (arith, str_eq_iff m.cidr "", str_eq_iff "10.0.2.0/30" "")

finish_interface-Completes :
    (olds : List Interface) (i : Interface) (mac : String)
    → mac ≢ ""
    → (i.mac ≢ "" → mac ≡ i.mac)
    → (i.mac ≡ "" → old_mac i.name olds ≢ "" → mac ≡ old_mac i.name olds)
    → Completes olds i (finish_interface i mac)
finish_interface-Completes olds i mac some_mac given kept = record {
  same_name = refl;
  given_mac = given;
  kept_mac = kept;
  some_mac = some_mac;
  some_method = ground (arith, default_binding-methods i);
  some_cidr = default_masquerade_cidr (default_binding i.binding).masquerade;
}

default_interfaces-Completes :
    (random : ℕ → Option (ℕ × ℕ × ℕ)) (n : ℕ) (olds is js : List Interface)
    → default_interfaces random n olds is ≡ some js
    → Pointwise (Completes olds) is js
unfolding default_interfaces
default_interfaces-Completes random n olds [] js h =
    subst (λ l. Pointwise (Completes olds) [] l) (some_inj.0 h) nil
default_interfaces-Completes random n olds (i ∷ is) js h =
    elim (Bool-cases (str_eq (if str_eq i.mac "" then old_mac i.name olds else i.mac) "")) [
      | inl empty ↦ elim (Option-cases (generate_mac (random n))) [
        | inl failed ↦ ground arith
        | inr (mac, made) ↦ elim (Option-cases (default_interfaces random (suc n) olds is)) [
          | inl failed ↦ ground arith
          | inr (rest, found) ↦
              let e : js ≡ finish_interface i mac ∷ rest = ground arith in
              subst (Pointwise (Completes olds) (i ∷ is)) (sym e) (
                cons
                  (finish_interface-Completes olds i mac (generate_mac-ne-nil (random n) mac made)
                    (ground (arith, str_eq_iff i.mac "", str_eq_iff (old_mac i.name olds) ""))
                    (ground (arith, str_eq_iff i.mac "", str_eq_iff (old_mac i.name olds) "")))
                  (default_interfaces-Completes random (suc n) olds is rest found))
        ]
      ]
      | inr full ↦ elim (Option-cases (default_interfaces random n olds is)) [
        | inl failed ↦ ground arith
        | inr (rest, found) ↦
            let e : js
                ≡ finish_interface i (if str_eq i.mac "" then old_mac i.name olds else i.mac)
                  ∷ rest =
              ground arith in
            subst (Pointwise (Completes olds) (i ∷ is)) (sym e) (
              cons
                (finish_interface-Completes olds i
                  (if str_eq i.mac "" then old_mac i.name olds else i.mac)
                  (ground (arith, str_eq_iff i.mac "", str_eq_iff (old_mac i.name olds) ""))
                  (ground (arith, str_eq_iff i.mac "", str_eq_iff (old_mac i.name olds) ""))
                  (ground (arith, str_eq_iff i.mac "", str_eq_iff (old_mac i.name olds) "")))
                (default_interfaces-Completes random n olds is rest found))
      ]
    ]

default_cpu-ValidCpu : (c : Cpu) → ValidCpu (default_cpu c)
unfolding default_cpu
default_cpu-ValidCpu c = ground arith

-- The run policy is one of the named ones.
abbrev pub IsNamed : RunPolicy → Type 0
IsNamed RunPolicy.unset = ⊥
IsNamed _ = Unit

default_run_policy-IsNamed : (p : RunPolicy) → IsNamed (default_run_policy p)
default_run_policy-IsNamed RunPolicy.unset = tt
default_run_policy-IsNamed RunPolicy.always = tt
default_run_policy-IsNamed RunPolicy.rerun_on_failure = tt
default_run_policy-IsNamed RunPolicy.once = tt
default_run_policy-IsNamed RunPolicy.manual = tt
default_run_policy-IsNamed RunPolicy.halted = tt

module _ {K : Kube} where
  -- A mutated machine has a run policy, a valid CPU topology, and for each interface of the request
  -- one of the same name, in the same order, that keeps a MAC that was given, else one that the old
  -- machine had under this name, and has a MAC, a binding method and, if it is a masquerade, a CIDR.
  pub mutate_vm-Completes :
      (random : ℕ → Option (ℕ × ℕ × ℕ)) (vm : VirtualMachine K) (old : Option (VirtualMachine K))
      (vm' : VirtualMachine K)
      → mutate_vm random vm old ≡ some vm'
      → IsNamed vm'.spec.run_policy
        × ValidCpu vm'.spec.instance_spec.cpu
        × Pointwise
            (Completes (old_interfaces old))
            vm.spec.instance_spec.interfaces
            vm'.spec.instance_spec.interfaces
  unfolding mutate_vm default_spec
  mutate_vm-Completes random vm old vm' h =
      elim (Option-cases
        (default_interfaces random 0 (old_interfaces old) vm.spec.instance_spec.interfaces)) [
          | inl failed ↦ ground arith
          | inr (is, found) ↦
              let run : vm'.spec.run_policy ≡ default_run_policy vm.spec.run_policy =
                ground arith in
              let cpu : vm'.spec.instance_spec.cpu ≡ default_cpu vm.spec.instance_spec.cpu =
                ground arith in
              let same : vm'.spec.instance_spec.interfaces ≡ is = ground arith in
              (
                subst IsNamed (sym run) (default_run_policy-IsNamed vm.spec.run_policy),
                subst ValidCpu (sym cpu) (default_cpu-ValidCpu vm.spec.instance_spec.cpu),
                subst (Pointwise (Completes (old_interfaces old)) vm.spec.instance_spec.interfaces)
                    (sym same)
                    (default_interfaces-Completes random 0 (old_interfaces old)
                      vm.spec.instance_spec.interfaces is found),
              )
        ]

-- What the defaults of dedicated CPUs rest on: documented behaviour of resource quantities.
pub record QuantityLaws (K : Kube) : Type 0 where
  pub value-new : (n : ℕ) → K.value (K.new_quantity (pos n)) ≡ pos n
  pub is_zero-new : (n : ℕ) → K.is_zero (K.new_quantity (pos n)) ≡ (n == 0)
  pub equal_refl : (q : K.Quantity) → K.equal q q ≡ true
  pub less_irrefl : (q : K.Quantity) → K.less q q ≡ false

default_memory_size-hugepages :
    {K : Kube} (r : ResourceRequirements K) (m : Memory K)
    → (default_memory_size K r m).hugepages ≡ m.hugepages
unfolding default_memory_size
default_memory_size-hugepages r m = ground arith

default_cpu-dedicated :
    (c : Cpu) → (default_cpu c).dedicated_cpu_placement ≡ c.dedicated_cpu_placement
unfolding default_cpu
default_cpu-dedicated c = refl

module _ {K : Kube} (laws : QuantityLaws K) where
  -- A machine that asks for dedicated CPUs, gives no resources and has no huge pages passes the
  -- resource checks once the defaults are filled in, if the number of its CPUs does not wrap to zero
  -- and neither its memory nor that with the overhead is zero.
  pub default_spec-ValidDedicated :
      (s : VirtualMachineSpec K)
      → s.instance_spec.cpu.dedicated_cpu_placement ≡ true
      → s.resources.requests ≡ none
      → s.resources.limits ≡ none
      → s.instance_spec.memory.hugepages ≡ none
      → vcpus (default_spec s).instance_spec.cpu ≢ pos 0
      → K.is_zero (default_spec s).instance_spec.memory.size ≡ false
      → K.is_zero (K.add (memory_overhead K) (default_spec s).instance_spec.memory.size) ≡ false
      → ValidDedicated (default_spec s)
  unfolding default_spec default_dedicated default_pages
  default_spec-ValidDedicated s dedicated requests limits pages cpus memory total =
      let t = (default_spec s).instance_spec in
      let n = t.cpu.sockets * t.cpu.cores_per_socket % 2 ^ 32 in
      let cpu = K.new_quantity (pos n) in
      let quantity = K.add (memory_overhead K) t.memory.size in
      let same = default_memory_size-hugepages s.resources s.instance_spec.memory in
      let kept = default_cpu-dedicated s.instance_spec.cpu in
      let list : List (String × K.Quantity) = ("cpu", cpu) ∷ ("memory", quantity) ∷ [] in
      let both : (default_spec s).resources ≡ record { requests = some list; limits = some list } =
        ground arith in
      rw both (
        ground (
          arith,
          same,
          kept,
          laws.value-new n,
          laws.is_zero-new n,
          laws.equal_refl cpu,
          laws.equal_refl quantity,
          laws.less_irrefl quantity,
        ))
