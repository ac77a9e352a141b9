-- ===== src/Webhook/Volume.antt =====
-- `ValidateVolume` and the validators of the volume sources.
use virtink.Prelude.{
  ℕ, ◌&&◌, not, ◌==◌, ltb, String, str_eq, Option, none, some, [], ◌∷◌, ◌++◌, if◌then◌else◌, suc,
}
use virtink.Prelude.Int.{pos, leb_ℤ}
use virtink.Api.{
  Kube, Volume, VolumeSource, ContainerDiskVolumeSource, CloudInitVolumeSource,
  ContainerRootfsVolumeSource, PersistentVolumeClaimVolumeSource, DataVolumeVolumeSource,
}
use virtink.Field.{FieldPath, child, FieldError, ErrorType, ErrorList, when}
use virtink.Webhook.Exclusive.{bump, alternative}
use virtink.Webhook.Cidr.{error_at}

-- A field that may not be empty.
abbrev pub require : String → FieldPath → String → ErrorList
require text p name = when (str_eq text "") (error_at ErrorType.required (child name ∷ p))

-- A field that may not be given.
abbrev pub forbid : FieldPath → String → FieldError
forbid p name = error_at ErrorType.forbidden (child name ∷ p)

unfoldable pub validate_container_disk_volume_source :
    Option ContainerDiskVolumeSource → FieldPath → ErrorList
validate_container_disk_volume_source none p = error_at ErrorType.required p ∷ []
validate_container_disk_volume_source (some s) p = require s.image p "image"

-- `if text != "" { cnt++ }`
abbrev bump_text : ℕ → String → ℕ
bump_text cnt text = if str_eq text "" then cnt else suc cnt

-- Three ways to give one text: a second one that is not empty is forbidden.
abbrev one_text : FieldPath → String → String → String → String → String → String → ErrorList
one_text p a a_name b b_name c c_name =
    let after_a = bump_text 0 a in
    let after_b = bump_text after_a b in
    let after_c = bump_text after_b c in
    when (not (str_eq a "") && ltb 1 after_a) (forbid p a_name)
    ++ (when (not (str_eq b "") && ltb 1 after_b) (forbid p b_name)
        ++ when (not (str_eq c "") && ltb 1 after_c) (forbid p c_name))

unfoldable pub validate_cloud_init_volume_source :
    Option CloudInitVolumeSource → FieldPath → ErrorList
validate_cloud_init_volume_source none p = error_at ErrorType.required p ∷ []
validate_cloud_init_volume_source (some s) p =
    one_text p s.user_data "userData" s.user_data_base64 "userDataBase64" s.user_data_secret_name
      "userDataSecretName"
    ++ one_text p s.network_data "networkData" s.network_data_base64 "networkDataBase64"
        s.network_data_secret_name "networkDataSecretName"

module _ {K : Kube} where
  unfoldable pub validate_container_rootfs_volume_source :
      Option (ContainerRootfsVolumeSource K) → FieldPath → ErrorList
  validate_container_rootfs_volume_source none p = error_at ErrorType.required p ∷ []
  validate_container_rootfs_volume_source (some s) p =
      require s.image p "image"
      ++ when (leb_ℤ (K.value s.size) (pos 0)) (error_at ErrorType.invalid (child "size" ∷ p))

unfoldable pub validate_persistent_volume_claim_source :
    Option PersistentVolumeClaimVolumeSource → FieldPath → ErrorList
validate_persistent_volume_claim_source none p = error_at ErrorType.required p ∷ []
validate_persistent_volume_claim_source (some s) p = require s.claim_name p "claimName"

unfoldable pub validate_data_volume_source : Option DataVolumeVolumeSource → FieldPath → ErrorList
validate_data_volume_source none p = error_at ErrorType.required p ∷ []
validate_data_volume_source (some s) p = require s.volume_name p "volumeName"

module _ {K : Kube} where
  unfoldable pub validate_volume_source : Option (VolumeSource K) → FieldPath → ErrorList
  validate_volume_source none p = error_at ErrorType.required p ∷ []
  validate_volume_source (some s) p =
      let after_disk = bump 0 s.container_disk in
      let after_init = bump after_disk s.cloud_init in
      let after_rootfs = bump after_init s.container_rootfs in
      let after_claim = bump after_rootfs s.persistent_volume_claim in
      let after_data = bump after_claim s.data_volume in
      alternative after_disk s.container_disk (forbid p "containerDisk")
        (λ d. validate_container_disk_volume_source (some d) (child "containerDisk" ∷ p))
      ++ (alternative after_init s.cloud_init (forbid p "cloudInit")
            (λ c. validate_cloud_init_volume_source (some c) (child "cloudInit" ∷ p))
          ++ (alternative after_rootfs s.container_rootfs (forbid p "containerRootfs") (λ r.
                validate_container_rootfs_volume_source (some r) (child "containerRootfs" ∷ p))
              ++ (alternative after_claim s.persistent_volume_claim
                    (forbid p "persistentVolumeClaim")
                    (λ c.
                      validate_persistent_volume_claim_source (some c)
                        (child "persistentVolumeClaim" ∷ p))
                  ++ (alternative after_data s.data_volume (forbid p "dataVolume")
                        (λ d. validate_data_volume_source (some d) (child "dataVolume" ∷ p))
                      ++ when (after_data == 0) (error_at ErrorType.required p)))))

  unfoldable pub validate_volume : Option (Volume K) → FieldPath → ErrorList
  validate_volume none p = error_at ErrorType.required p ∷ []
  validate_volume (some v) p = require v.name p "name" ++ validate_volume_source (some (v.source)) p
