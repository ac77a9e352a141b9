-- ===== src/Machine/Claims.antt =====
-- pkg/volumeutil/volumeutil.go: the claim behind a volume.
use virtink.Prelude.{Bool, true, false, String, str_eq, Option, none, some, is_some, if◌then◌else◌}
use virtink.Api.{Kube, Volume, pvc_name, Claim, VolumeMode}
use virtink.Client.{GetResult, found, not_found, failed}
use virtink.Machine.Monad.{Cluster, M, ◌>>=◌, pure, raise, call, get_claim, fails_with}
use virtink.Machine.Reads.{Reads, reads}

module _ {K : Kube} (c : Cluster K) where
  unfoldable pub claim_result : GetResult Claim → M K (Option Claim)
  claim_result (found p) = pure (some p)
  claim_result not_found = pure none
  claim_result (failed e) = raise (fails_with e)

  -- `GetPVC`; a claim that is not there is `none`.
  unfoldable pub get_pvc : String → Volume K → M K (Option Claim)
  unfolding claim_result
  get_pvc namespace v =
      if str_eq (pvc_name v) "" then raise (fails_with "volume is not on a PVC") else do
        calls ← call (get_claim (pvc_name v))
        claim_result (c.claim calls namespace (pvc_name v))

  unfoldable pub populated_result : Option Bool → M K Bool
  populated_result none = raise (fails_with "get DataVolume")
  populated_result (some b) = pure b

  unfoldable pub claim_ready : Option Claim → M K Bool
  unfolding populated_result
  claim_ready none = pure false
  claim_ready (some p) = do
    calls ← call (get_claim p.meta.name)
    populated_result (c.is_populated calls p)

  -- `IsReady`
  unfoldable pub is_ready : String → Volume K → M K Bool
  unfolding get_pvc claim_ready
  is_ready namespace v =
      if is_some v.source.data_volume
      then (do p ← get_pvc namespace v; claim_ready p)
      else pure true

  abbrev is_block_mode : Option VolumeMode → Bool
  is_block_mode none = false
  is_block_mode (some VolumeMode.block) = true
  is_block_mode (some VolumeMode.filesystem) = false

  unfoldable pub claim_is_block : Option Claim → M K Bool
  claim_is_block none = raise (fails_with "pvc not found")
  claim_is_block (some p) = pure (is_block_mode p.volume_mode)

  -- `IsBlock`
  unfoldable pub is_block : String → Volume K → M K Bool
  unfolding get_pvc claim_is_block
  is_block namespace v = do p ← get_pvc namespace v; claim_is_block p

  claim_result-Reads : (r : GetResult Claim) → Reads (claim_result r)
  unfolding claim_result
  claim_result-Reads (found p) = search reads
  claim_result-Reads not_found = search reads
  claim_result-Reads (failed e) = search reads

  pub get_pvc-Reads : (namespace : String) (v : Volume K) → Reads (get_pvc namespace v)
  unfolding get_pvc
  get_pvc-Reads namespace v = search (reads, claim_result-Reads)

  populated_result-Reads : (b : Option Bool) → Reads (populated_result b)
  unfolding populated_result
  populated_result-Reads none = search reads
  populated_result-Reads (some b) = search reads

  claim_ready-Reads : (p : Option Claim) → Reads (claim_ready p)
  unfolding claim_ready
  claim_ready-Reads none = search reads
  claim_ready-Reads (some p) = search (reads, populated_result-Reads)

  pub is_ready-Reads : (namespace : String) (v : Volume K) → Reads (is_ready namespace v)
  unfolding is_ready
  is_ready-Reads namespace v = search (reads, get_pvc-Reads, claim_ready-Reads)

  claim_is_block-Reads : (p : Option Claim) → Reads (claim_is_block p)
  unfolding claim_is_block
  claim_is_block-Reads none = search reads
  claim_is_block-Reads (some p) = search reads

  pub is_block-Reads : (namespace : String) (v : Volume K) → Reads (is_block namespace v)
  unfolding is_block
  is_block-Reads namespace v = search (reads, get_pvc-Reads, claim_is_block-Reads)
