-- ===== src/Webhook/InstanceValid.antt =====
-- Which instances `ValidateInstance` accepts.
use virtink.Prelude.{
  ℕ, ◌<◌, ◌%◌, ◌≡◌, ◌≢◌, ◌↔◌, true, false, is_some, str_eq_iff, Option, none, some, Option-cases,
  inl, inr, [], ◌∷◌, ◌++◌, map, arith, All, if◌then◌else◌, refl,
}
use virtink.Prelude.Int.{pos, leb_ℤ, abs}
use virtink.Api.{Kube, Cpu, Memory, Kernel, Disk, FileSystem, Interface, Instance}
use virtink.Field.{FieldPath, child}
use virtink.Webhook.Cidr.{Net}
use virtink.Webhook.Names.{AllDistinct, each_named-nil_iff, each_named-shared_iff}
use virtink.Webhook.Exclusive.{IfGiven, append_six}
use virtink.Webhook.Interface.{ValidInterface, validate_interface-nil_iff}
use virtink.Webhook.Instance.{
  validate_cpu, validate_memory, validate_kernel, validate_disk, validate_file_system,
  check_interface, validate_instance, at, duplicate_name,
}

abbrev pub ValidCpu : Cpu → Type 0
ValidCpu c = (0 < c.sockets) × (0 < c.cores_per_socket)

pub validate_cpu-nil_iff : (c : Cpu) (p : FieldPath) → (validate_cpu (some c) p ≡ []) ↔ ValidCpu c
unfolding validate_cpu
validate_cpu-nil_iff c p = ground arith

abbrev pub ValidKernel : Kernel → Type 0
ValidKernel k = (k.image ≢ "") × (k.cmdline ≢ "")

validate_kernel-nil_iff :
    (k : Kernel) (p : FieldPath) → (validate_kernel (some k) p ≡ []) ↔ ValidKernel k
unfolding validate_kernel
validate_kernel-nil_iff k p = ground (arith, str_eq_iff k.image "", str_eq_iff k.cmdline "")

disk-nil_iff : (d : Disk) (p : FieldPath) → (validate_disk (some d) p ≡ []) ↔ (d.name ≢ "")
unfolding validate_disk
disk-nil_iff d p = ground (arith, str_eq_iff d.name "")

file_system-nil_iff :
    (f : FileSystem) (p : FieldPath) → (validate_file_system (some f) p ≡ []) ↔ (f.name ≢ "")
unfolding validate_file_system
file_system-nil_iff f p = ground (arith, str_eq_iff f.name "")

-- The kernel is checked if there is one.
kernel-nil_iff :
    (k : Option Kernel) (p : FieldPath)
    → ((if is_some k then validate_kernel k p else []) ≡ []) ↔ IfGiven ValidKernel k
kernel-nil_iff none p = (λ _. tt, λ _. refl)
kernel-nil_iff (some k) p = validate_kernel-nil_iff k p

module _ {K : Kube} where
  -- A positive size, which is a multiple of the page size if there are huge pages.
  abbrev pub ValidMemory : Memory K → Type 0
  ValidMemory m =
      (leb_ℤ (K.value m.size) (pos 0) ≡ false)
      × IfGiven (λ h. abs (K.value m.size) % abs (K.value (K.must_parse h.page_size)) ≡ 0)
          m.hugepages

  pub validate_memory-nil_iff :
      (m : Memory K) (p : FieldPath) → (validate_memory (some m) p ≡ []) ↔ ValidMemory m
  unfolding validate_memory
  validate_memory-nil_iff m p = elim (Option-cases m.hugepages) [
    | inl e ↦ ground arith
    | inr (h, e) ↦ ground arith
  ]

  -- A vhost-user interface needs dedicated CPUs and huge pages.
  abbrev pub ValidVhostUser : Instance K → Interface → Type 0
  ValidVhostUser s i =
      is_some i.binding.vhost_user ≡ true
      → (s.cpu.dedicated_cpu_placement ≡ true) × (is_some s.memory.hugepages ≡ true)

  abbrev pub ValidDevice : Net → Instance K → Interface → Type 0
  ValidDevice net s i = ValidVhostUser s i × ValidInterface net i

  check_interface-nil_iff :
      (net : Net) (s : Instance K) (p : FieldPath) (k : ℕ) (i : Interface)
      → (check_interface net s p k i ≡ []) ↔ ValidDevice net s i
  unfolding check_interface
  check_interface-nil_iff net s p k i =
      ground (arith, validate_interface-nil_iff net i (at p "interfaces" k))

  abbrev pub ValidInstance : Net → Instance K → Type 0
  ValidInstance net s =
      ValidCpu s.cpu
      × ValidMemory s.memory
      × IfGiven ValidKernel s.kernel
      × (AllDistinct (map (λ d. d.name) s.disks ++ map (λ f. f.name) s.file_systems)
          × All (λ d. d.name ≢ "") s.disks
          × All (λ f. f.name ≢ "") s.file_systems)
      × (AllDistinct (map (λ i. i.name) s.interfaces) × All (ValidDevice net s) s.interfaces)

  -- An instance is accepted exactly when its CPU, memory and kernel are valid, the names of disks and
  -- file systems together are distinct and not empty, and the interfaces have distinct names and are
  -- valid, a vhost-user one only with dedicated CPUs and huge pages.
  pub validate_instance-nil_iff :
      (net : Net) (s : Instance K) (p : FieldPath)
      → (validate_instance net (some s) p ≡ []) ↔ ValidInstance net s
  unfolding validate_instance
  validate_instance-nil_iff net s p =
      let cpu = validate_cpu-nil_iff s.cpu (child "cpu" ∷ p) in
      let memory = validate_memory-nil_iff s.memory (child "memory" ∷ p) in
      let shared =
        each_named-shared_iff (λ (d : Disk). d.name) (λ i d. duplicate_name (at p "disks" i))
          (λ i d. validate_disk (some d) (at p "disks" i)) (λ (f : FileSystem). f.name)
          (λ i f. duplicate_name (at p "fileSystems" i))
          (λ i f. validate_file_system (some f) (at p "fileSystems" i)) (λ d. d.name ≢ "")
          (λ f. f.name ≢ "") (λ i d. disk-nil_iff d _) (λ i f. file_system-nil_iff f _) s.disks
          s.file_systems in
      let devices =
        each_named-nil_iff (λ (i : Interface). i.name) (λ i d. duplicate_name (at p "interfaces" i))
          (check_interface net s p) (ValidDevice net s) (check_interface-nil_iff net s p)
          s.interfaces in
      let kernel = kernel-nil_iff s.kernel (child "kernel" ∷ p) in
      let parts = append_six _ _ _ _ _ _ in
      (
        λ h.
            let (a, b, c, d, e, f) = parts.0 h in
            (cpu.0 a, memory.0 b, kernel.0 c, shared.0 (d, e), devices.0 f),
        λ h.
            let (d, e) = shared.1 h.3 in
            parts.1 (cpu.1 h.0, memory.1 h.1, kernel.1 h.2, d, e, devices.1 h.4),
      )
