-- ===== src/Machine/Migratable.antt =====
-- Which machines `calculateMigratableCondition` of pkg/controller/vm_controller.go lets migrate.
use virtink.Prelude.{◌≡◌, ◌↔◌, ◌⊎◌, false, str_eq_iff, none, List, [], ◌∷◌, All, arith}
use virtink.Api.{Kube, VirtualMachineSpec, Volume, Network, Interface, cond_true}
use virtink.Machine.Conditions.{
  any_blocks, any_network_blocks, any_container_volume, calculate_migratable,
}

-- An interface that can follow its machine to another node, given the network of its name.
abbrev pub CanMove : Network → Interface → Type 0
CanMove n i =
    i.name ≡ n.name
    → ((n.source.pod ≡ none) ⊎ (i.binding.bridge ≡ none))
      × (i.binding.sriov ≡ none)
      × (i.binding.vhost_user ≡ none)

pub record IsMovable {K : Kube} (s : VirtualMachineSpec K) : Type 0 where
  pub shared_cpus : s.instance_spec.cpu.dedicated_cpu_placement ≡ false
  pub interfaces : All (λ n. All (CanMove n) s.instance_spec.interfaces) s.networks
  pub volumes :
      All (λ v. (v.source.container_rootfs ≡ none) × (v.source.container_disk ≡ none)) s.volumes
  pub file_systems : s.instance_spec.file_systems ≡ []

any_blocks_iff :
    (n : Network) (is : List Interface) → (any_blocks n is ≡ false) ↔ All (CanMove n) is
unfolding any_blocks
any_blocks_iff n [] = ground arith
any_blocks_iff n (i ∷ is) = ground (arith, any_blocks_iff n is, str_eq_iff i.name n.name)

any_network_blocks_iff :
    (ns : List Network) (is : List Interface)
    → (any_network_blocks ns is ≡ false) ↔ All (λ n. All (CanMove n) is) ns
unfolding any_network_blocks
any_network_blocks_iff [] is = ground arith
any_network_blocks_iff (n ∷ ns) is =
    ground (arith, any_network_blocks_iff ns is, any_blocks_iff n is)

any_container_volume_iff :
    {K : Kube} (vs : List (Volume K))
    → (any_container_volume vs ≡ false)
      ↔ All (λ v. (v.source.container_rootfs ≡ none) × (v.source.container_disk ≡ none)) vs
unfolding any_container_volume
any_container_volume_iff [] = ground arith
any_container_volume_iff (v ∷ vs) = ground (arith, any_container_volume_iff vs)

-- The condition is true exactly for the machines that share their CPUs, have no file system and no volume
-- made from a container image, and whose interfaces can all follow them.
pub calculate_migratable_iff :
    {K : Kube} (s : VirtualMachineSpec K)
    → ((calculate_migratable s).status ≡ cond_true) ↔ IsMovable s
unfolding calculate_migratable
calculate_migratable_iff s = ground (
  arith,
  any_network_blocks_iff s.networks s.instance_spec.interfaces,
  any_container_volume_iff s.volumes,
)
