-- ===== src/Webhook/Interface.antt =====
-- `ValidateInterface` and `ValidateInterfaceBindingMethod`.
use virtink.Prelude.{
  ℕ, ◌+◌, ◌≡◌, ◌≢◌, ◌↔◌, true, ◌==◌, String, str_eq, str_eq_iff, Option, none, some, Option-cases,
  inl, inr, [], ◌∷◌, ◌++◌, arith, append-eq-nil,
}
use virtink.Api.{Interface, InterfaceBindingMethod, InterfaceMasquerade}
use virtink.Field.{FieldPath, child, FieldError, ErrorType, ErrorList, when}
use virtink.Webhook.Exclusive.{bump, alternative, nothing_more}
use virtink.Webhook.Cidr.{
  Net, error_at, validate_cidr, validate_mac, RoomForFour, validate_cidr-nil_iff,
  validate_mac-nil_iff,
}

abbrev forbidden_child : FieldPath → String → FieldError
forbidden_child p name = error_at ErrorType.forbidden (child name ∷ p)

unfoldable pub validate_interface_binding_method :
    Net → Option InterfaceBindingMethod → FieldPath → ErrorList
validate_interface_binding_method net none p = error_at ErrorType.required p ∷ []
validate_interface_binding_method net (some b) p =
    let after_bridge = bump 0 b.bridge in
    let after_masquerade = bump after_bridge b.masquerade in
    let after_sriov = bump after_masquerade b.sriov in
    let after_vdpa = bump after_sriov b.vdpa in
    let after_vhost_user = bump after_vdpa b.vhost_user in
    alternative after_bridge b.bridge (forbidden_child p "bridge") nothing_more
    ++ (alternative after_masquerade b.masquerade (forbidden_child p "masquerade")
          (λ m. validate_cidr net m.cidr 4 (child "cidr" ∷ child "masquerade" ∷ p))
        ++ (alternative after_sriov b.sriov (forbidden_child p "sriov") nothing_more
            ++ (alternative after_vdpa b.vdpa (forbidden_child p "vdpa") nothing_more
                ++ (alternative after_vhost_user b.vhost_user (forbidden_child p "vhostUser")
                      nothing_more
                    ++ when (after_vhost_user == 0) (error_at ErrorType.required p)))))

unfoldable pub validate_interface : Net → Option Interface → FieldPath → ErrorList
validate_interface net none p = error_at ErrorType.required p ∷ []
validate_interface net (some i) p =
    when (str_eq i.name "") (error_at ErrorType.required (child "name" ∷ p))
    ++ (validate_mac net i.mac (child "mac" ∷ p)
        ++ validate_interface_binding_method net (some (i.binding)) p)

-- How many binding methods are given.
abbrev pub methods : InterfaceBindingMethod → ℕ
methods b =
    bump 0 b.bridge + bump 0 b.masquerade + bump 0 b.sriov + bump 0 b.vdpa + bump 0 b.vhost_user

abbrev pub ValidMasquerade : Net → Option InterfaceMasquerade → Type 0
ValidMasquerade net none = Unit
ValidMasquerade net (some m) = (m.cidr ≢ "") × RoomForFour (net.parse_cidr m.cidr)

abbrev pub ValidBinding : Net → InterfaceBindingMethod → Type 0
ValidBinding net b = (methods b ≡ 1) × ValidMasquerade net b.masquerade

-- The binding of an interface is accepted exactly when one method is given, and a masquerade has a
-- CIDR with room for four addresses.
pub validate_interface_binding_method-nil_iff :
    (net : Net) (b : InterfaceBindingMethod) (p : FieldPath)
    → (validate_interface_binding_method net (some b) p ≡ []) ↔ ValidBinding net b
unfolding validate_interface_binding_method
validate_interface_binding_method-nil_iff net b p = elim (Option-cases b.masquerade) [
  | inl e ↦ ground arith
  | inr (m, e) ↦
      ground (arith, validate_cidr-nil_iff net m.cidr (child "cidr" ∷ child "masquerade" ∷ p))
]

abbrev pub ValidInterface : Net → Interface → Type 0
ValidInterface net i =
    (i.name ≢ "") × (i.mac ≢ "") × (net.parse_mac i.mac ≡ true) × ValidBinding net i.binding

pub validate_interface-nil_iff :
    (net : Net) (i : Interface) (p : FieldPath)
    → (validate_interface net (some i) p ≡ []) ↔ ValidInterface net i
unfolding validate_interface
validate_interface-nil_iff net i p = ground (
  arith,
  str_eq_iff i.name "",
  validate_mac-nil_iff net i.mac (child "mac" ∷ p),
  validate_interface_binding_method-nil_iff net i.binding p,
  append-eq-nil (validate_mac net i.mac (child "mac" ∷ p))
      (validate_interface_binding_method net (some (i.binding)) p),
)
