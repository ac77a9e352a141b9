-- ===== src/Webhook/Network.antt =====
-- `ValidateNetwork` and the validators of the network sources.
use virtink.Prelude.{
  ◌+◌, ◌≡◌, ◌≢◌, ◌↔◌, ◌==◌, str_eq_iff, Option, none, some, [], ◌∷◌, ◌++◌, arith, inl, inr,
  Option-cases,
}
use virtink.Api.{Network, NetworkSource, MultusNetworkSource}
use virtink.Field.{FieldPath, child, ErrorType, ErrorList, when}
use virtink.Webhook.Exclusive.{bump, alternative, IfGiven}
use virtink.Webhook.Cidr.{error_at}
use virtink.Webhook.Volume.{require, forbid}

unfoldable pub validate_pod_network_source : Option (Unit {0}) → FieldPath → ErrorList
validate_pod_network_source none p = error_at ErrorType.required p ∷ []
validate_pod_network_source (some _) p = []

unfoldable pub validate_multus_network_source : Option MultusNetworkSource → FieldPath → ErrorList
validate_multus_network_source none p = error_at ErrorType.required p ∷ []
validate_multus_network_source (some s) p = require s.network_name p "networkName"

unfoldable pub validate_network_source : Option NetworkSource → FieldPath → ErrorList
validate_network_source none p = error_at ErrorType.required p ∷ []
validate_network_source (some s) p =
    let after_pod = bump 0 s.pod in
    let after_multus = bump after_pod s.multus in
    alternative after_pod s.pod (forbid p "pod")
      (λ t. validate_pod_network_source (some t) (child "pod" ∷ p))
    ++ (alternative after_multus s.multus (forbid p "multus")
          (λ m. validate_multus_network_source (some m) (child "multus" ∷ p))
        ++ when (after_multus == 0) (error_at ErrorType.required p))

unfoldable pub validate_network : Option Network → FieldPath → ErrorList
validate_network none p = error_at ErrorType.required p ∷ []
validate_network (some n) p = require n.name p "name" ++ validate_network_source (some (n.source)) p

abbrev pub ValidNetworkSource : NetworkSource → Type 0
ValidNetworkSource s =
    (bump 0 s.pod + bump 0 s.multus ≡ 1) × IfGiven (λ m. m.network_name ≢ "") s.multus

pub validate_network_source-nil_iff :
    (s : NetworkSource) (p : FieldPath)
    → (validate_network_source (some s) p ≡ []) ↔ ValidNetworkSource s
unfolding validate_network_source validate_pod_network_source validate_multus_network_source
validate_network_source-nil_iff s p = elim (Option-cases s.multus) [
  | inl e ↦ ground arith
  | inr (m, e) ↦ ground (arith, str_eq_iff m.network_name "")
]

abbrev pub ValidNetwork : Network → Type 0
ValidNetwork n = (n.name ≢ "") × ValidNetworkSource n.source

-- A network is accepted exactly when it has a name and one source, and a Multus source names its
-- network.
pub validate_network-nil_iff :
    (n : Network) (p : FieldPath) → (validate_network (some n) p ≡ []) ↔ ValidNetwork n
unfolding validate_network
validate_network-nil_iff n p =
    ground (arith, str_eq_iff n.name "", validate_network_source-nil_iff n.source p)
