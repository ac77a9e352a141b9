-- ===== src/Webhook/VolumeValid.antt =====
-- Which volumes `ValidateVolume` accepts.
use virtink.Prelude.{◌≡◌, ◌≢◌, ◌↔◌, ◌⊎◌, false, String, str_eq_iff, some, [], arith}
use virtink.Prelude.Int.{pos, leb_ℤ}
use virtink.Api.{Kube, Volume, VolumeSource, CloudInitVolumeSource, ContainerRootfsVolumeSource}
use virtink.Field.{FieldPath}
use virtink.Webhook.Exclusive.{OneOfFive, five-nil_iff}
use virtink.Webhook.Volume.{
  validate_container_disk_volume_source, validate_cloud_init_volume_source,
  validate_container_rootfs_volume_source, validate_persistent_volume_claim_source,
  validate_data_volume_source, validate_volume_source, validate_volume,
}

-- At most one of three texts is not empty.
abbrev pub AtMostOne : String → String → String → Type 0
AtMostOne a b c = ((b ≡ "") × (c ≡ "")) ⊎ (((a ≡ "") × (c ≡ "")) ⊎ ((a ≡ "") × (b ≡ "")))

abbrev pub ValidCloudInit : CloudInitVolumeSource → Type 0
ValidCloudInit s =
    AtMostOne s.user_data s.user_data_base64 s.user_data_secret_name
    × AtMostOne s.network_data s.network_data_base64 s.network_data_secret_name

pub validate_cloud_init_volume_source-nil_iff :
    (s : CloudInitVolumeSource) (p : FieldPath)
    → (validate_cloud_init_volume_source (some s) p ≡ []) ↔ ValidCloudInit s
unfolding validate_cloud_init_volume_source
validate_cloud_init_volume_source-nil_iff s p = ground (
  arith,
  str_eq_iff s.user_data "",
  str_eq_iff s.user_data_base64 "",
  str_eq_iff s.user_data_secret_name "",
  str_eq_iff s.network_data "",
  str_eq_iff s.network_data_base64 "",
  str_eq_iff s.network_data_secret_name "",
)

module _ {K : Kube} where
  abbrev pub ValidRootfs : ContainerRootfsVolumeSource K → Type 0
  ValidRootfs s = (s.image ≢ "") × (leb_ℤ (K.value s.size) (pos 0) ≡ false)

  abbrev pub ValidSource : VolumeSource K → Type 0
  ValidSource s =
      OneOfFive (λ d. d.image ≢ "") ValidCloudInit ValidRootfs (λ c. c.claim_name ≢ "")
        (λ d. d.volume_name ≢ "") s.container_disk s.cloud_init s.container_rootfs
        s.persistent_volume_claim s.data_volume

  -- A volume source is accepted exactly when one of the five kinds is given, and it is valid: a disk
  -- or root file system has an image, the latter a positive size, a claim or data volume a name, and
  -- a cloud-init at most one user data and at most one network data.
  pub validate_volume_source-nil_iff :
      (s : VolumeSource K) (p : FieldPath)
      → (validate_volume_source (some s) p ≡ []) ↔ ValidSource s
  unfolding validate_volume_source validate_container_disk_volume_source
      validate_container_rootfs_volume_source validate_persistent_volume_claim_source
      validate_data_volume_source
  validate_volume_source-nil_iff s p =
      five-nil_iff _ _ _ _ _ s.container_disk s.cloud_init s.container_rootfs
        s.persistent_volume_claim s.data_volume _ _ _ _ _ _ _ _ _ _ _
        (λ d. ground (arith, str_eq_iff d.image ""))
        (λ c. validate_cloud_init_volume_source-nil_iff c _)
        (λ r. ground (arith, str_eq_iff r.image ""))
        (λ c. ground (arith, str_eq_iff c.claim_name ""))
        (λ d. ground (arith, str_eq_iff d.volume_name ""))

  abbrev pub ValidVolume : Volume K → Type 0
  ValidVolume v = (v.name ≢ "") × ValidSource v.source

  pub validate_volume-nil_iff :
      (v : Volume K) (p : FieldPath) → (validate_volume (some v) p ≡ []) ↔ ValidVolume v
  unfolding validate_volume
  validate_volume-nil_iff v p =
      ground (arith, str_eq_iff v.name "", validate_volume_source-nil_iff v.source p)
