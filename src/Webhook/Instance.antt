-- ===== src/Webhook/Instance.antt =====
-- `ValidateInstance` and the validators of its parts.
use virtink.Prelude.{
  ℕ, ◌%◌, ◌==◌, leb, not, ◌||◌, ◌&&◌, is_some, String, Option, none, some, [], ◌∷◌, ◌++◌,
  if◌then◌else◌,
}
use virtink.Prelude.Int.{ℤ, pos, leb_ℤ, abs}
use virtink.Api.{Kube, Cpu, Memory, Hugepages, Kernel, Disk, FileSystem, Interface, Instance}
use virtink.Field.{FieldPath, child, index, FieldError, ErrorType, ErrorList, when}
use virtink.Webhook.Cidr.{Net, error_at}
use virtink.Webhook.Volume.{require, forbid}
use virtink.Webhook.Interface.{validate_interface}
use virtink.Webhook.Names.{each_named, seen_after}

unfoldable pub validate_cpu : Option Cpu → FieldPath → ErrorList
validate_cpu none p = error_at ErrorType.required p ∷ []
validate_cpu (some c) p =
    when (c.sockets == 0) (error_at ErrorType.required (child "sockets" ∷ p))
    ++ when (leb c.cores_per_socket 0) (error_at ErrorType.required (child "coresPerSocket" ∷ p))

module _ (K : Kube) where
  -- Only the test of the remainder for zero is needed, so the signs do not matter. A page size of zero
  -- is no page size (the schema allows 2Mi and 1Gi); Go would stop at the division.
  abbrev pub check_pages : ℤ → Option Hugepages → FieldPath → ErrorList
  check_pages size none p = []
  check_pages size (some h) p =
      when (not (abs size % abs (K.value (K.must_parse h.page_size)) == 0))
        (error_at ErrorType.invalid (child "size" ∷ p))

module _ {K : Kube} where
  unfoldable pub validate_memory : Option (Memory K) → FieldPath → ErrorList
  validate_memory none p = error_at ErrorType.required p ∷ []
  validate_memory (some m) p =
      when (leb_ℤ (K.value m.size) (pos 0)) (error_at ErrorType.invalid (child "size" ∷ p))
      ++ check_pages K (K.value m.size) m.hugepages p

unfoldable pub validate_kernel : Option Kernel → FieldPath → ErrorList
validate_kernel none p = error_at ErrorType.required p ∷ []
validate_kernel (some k) p = require k.image p "image" ++ require k.cmdline p "cmdline"

unfoldable pub validate_disk : Option Disk → FieldPath → ErrorList
validate_disk none p = error_at ErrorType.required p ∷ []
validate_disk (some d) p = require d.name p "name"

unfoldable pub validate_file_system : Option FileSystem → FieldPath → ErrorList
validate_file_system none p = error_at ErrorType.required p ∷ []
validate_file_system (some f) p = require f.name p "name"

-- The path of the i-th element of a list field.
abbrev pub at : FieldPath → String → ℕ → FieldPath
at p list i = index i ∷ child list ∷ p

abbrev pub duplicate_name : FieldPath → FieldError
duplicate_name p = error_at ErrorType.duplicate (child "name" ∷ p)

module _ {K : Kube} (net : Net) where
  -- One round of the loop over the interfaces, behind the test for a duplicate.
  unfoldable pub check_interface : Instance K → FieldPath → ℕ → Interface → ErrorList
  check_interface s p i iface =
      when
        (is_some iface.binding.vhost_user
          && (not s.cpu.dedicated_cpu_placement || not (is_some s.memory.hugepages)))
        (forbid (at p "interfaces" i) "vhostUser")
      ++ validate_interface net (some iface) (at p "interfaces" i)

  -- Disks and file systems share one map of names.
  unfoldable pub validate_instance : Option (Instance K) → FieldPath → ErrorList
  validate_instance none p = error_at ErrorType.required p ∷ []
  validate_instance (some s) p =
      validate_cpu (some (s.cpu)) (child "cpu" ∷ p)
      ++ (validate_memory (some (s.memory)) (child "memory" ∷ p)
          ++ ((if is_some s.kernel then validate_kernel s.kernel (child "kernel" ∷ p) else [])
              ++ (each_named (λ d. d.name) (λ i d. duplicate_name (at p "disks" i))
                    (λ i d. validate_disk (some d) (at p "disks" i)) [] 0 s.disks
                  ++ (each_named (λ f. f.name) (λ i f. duplicate_name (at p "fileSystems" i))
                        (λ i f. validate_file_system (some f) (at p "fileSystems" i))
                        (seen_after (λ d. d.name) [] s.disks) 0 s.file_systems
                      ++ each_named (λ i. i.name) (λ i d. duplicate_name (at p "interfaces" i))
                          (check_interface s p) [] 0 s.interfaces))))
