-- ===== src/Machine/Build/Closed.antt =====
-- The pod that `buildVMPod` of pkg/controller/vm_controller.go makes is closed: what its containers mount
-- are volumes of the pod.
use virtink.Prelude.{
  ◌≡◌, Bool, true, false, ◌||◌, String, str_eq, str_eq_iff, List, [], ◌∷◌, ◌++◌, All, arith,
}
use virtink.Api.{Kube, Pod, PodVolume, PodVolumeSource, Container, VolumeMount, EnvSource}
use virtink.Machine.Monad.{current}
use virtink.Machine.Ensures.{Ensures, after-Ensures, pure-Ensures, then-Ensures}
use virtink.Machine.Build.Draft.{
  Draft, add_volume, add_mount, add_device, add_env, add_init, increment_container_resource,
  set_label, set_annotation, select_node, share,
}

-- Is there a volume of this name?
abbrev pub has_volume : {K : Kube} → List (PodVolume K) → String → Bool
has_volume [] name = false
has_volume (v ∷ vs) name = str_eq v.name name || has_volume vs name

abbrev pub AllNamed : {K : Kube} → List (PodVolume K) → List VolumeMount → Type 0
AllNamed vs ms = All (λ m. has_volume vs m.name ≡ true) ms

-- The main container may mount volumes and devices, an init container volumes.
pub record IsClosed {K : Kube} (p : Pod K) : Type 0 where
  pub mounts : AllNamed p.spec.volumes p.spec.container.mounts
  pub devices : AllNamed p.spec.volumes p.spec.container.devices
  pub inits : All (λ i. AllNamed p.spec.volumes i.mounts) p.spec.init_containers

pub record ClosedDraft {K : Kube} (d : Draft K) : Type 0 where
  pub pod : IsClosed d.pod

snoc-All {ℓ κ} :
    {A : Type ℓ} (P : A → Type κ) (xs : List A) (x : A) → All P xs → P x → All P (xs ++ (x ∷ []))
snoc-All P [] x h k = (k, tt)
snoc-All P (y ∷ ys) x h k = (h.0, snoc-All P ys x h.1 k)

module _ {K : Kube} where
  pub has_volume-append :
      (vs ws : List (PodVolume K)) (name : String)
      → has_volume vs name ≡ true
      → has_volume (vs ++ ws) name ≡ true
  has_volume-append [] ws name h = cc
  has_volume-append (v ∷ vs) ws name h =
      ground (arith, has_volume-append vs ws name, str_eq_iff v.name name)

  pub has_volume-last :
      (vs ws : List (PodVolume K)) (name : String)
      → has_volume ws name ≡ true
      → has_volume (vs ++ ws) name ≡ true
  has_volume-last [] ws name h = h
  has_volume-last (v ∷ vs) ws name h =
      ground (arith, has_volume-last vs ws name, str_eq_iff v.name name)

  AllNamed-append :
      (vs ws : List (PodVolume K)) (ms : List VolumeMount) → AllNamed vs ms → AllNamed (vs ++ ws) ms
  AllNamed-append vs ws [] h = tt
  AllNamed-append vs ws (m ∷ ms) h =
      (has_volume-append vs ws m.name h.0, AllNamed-append vs ws ms h.1)

  inits-append :
      (vs ws : List (PodVolume K)) (is : List (Container K))
      → All (λ i. AllNamed vs i.mounts) is
      → All (λ i. AllNamed (vs ++ ws) i.mounts) is
  inits-append vs ws [] h = tt
  inits-append vs ws (i ∷ is) h = (AllNamed-append vs ws i.mounts h.0, inits-append vs ws is h.1)

  pub more-Closed :
      (p : Pod K) (vs : List (PodVolume K))
      → IsClosed p
      → IsClosed (record p { spec = record (p.spec) { volumes = p.spec.volumes ++ vs } })
  more-Closed p vs h = record {
    mounts = AllNamed-append p.spec.volumes vs p.spec.container.mounts h.mounts;
    devices = AllNamed-append p.spec.volumes vs p.spec.container.devices h.devices;
    inits = inits-append p.spec.volumes vs p.spec.init_containers h.inits;
  }

  pub add_volume-Closed :
      (name : String) (v : PodVolumeSource K) (d : Draft K)
      → ClosedDraft d
      → ClosedDraft (add_volume name v d)
  unfolding add_volume
  add_volume-Closed name v d h = record {
    pod = more-Closed d.pod (record { name = name; source = v } ∷ []) h.pod;
  }

  abbrev pub Has : Draft K → String → Type 0
  Has d name = has_volume d.pod.spec.volumes name ≡ true

  pub add_volume-Has :
      (name : String) (v : PodVolumeSource K) (d : Draft K) → Has (add_volume name v d) name
  unfolding add_volume
  add_volume-Has name v d =
      has_volume-last d.pod.spec.volumes (record { name = name; source = v } ∷ []) name
        (ground (arith, str_eq_iff name name))

  pub add_volume-keeps :
      (name other : String) (v : PodVolumeSource K) (d : Draft K)
      → Has d other
      → Has (add_volume name v d) other
  unfolding add_volume
  add_volume-keeps name other v d h = has_volume-append d.pod.spec.volumes _ other h

  pub add_mount-Closed :
      (m : VolumeMount) (d : Draft K) → Has d m.name → ClosedDraft d → ClosedDraft (add_mount m d)
  unfolding add_mount
  add_mount-Closed m d k h = record {
    pod = record {
      mounts = snoc-All _ d.pod.spec.container.mounts m h.pod.mounts k;
      devices = h.pod.devices;
      inits = h.pod.inits;
    };
  }

  pub add_mount-keeps :
      (m : VolumeMount) (d : Draft K) (name : String) → Has d name → Has (add_mount m d) name
  unfolding add_mount
  add_mount-keeps m d name h = h

  pub add_device-Closed :
      (m : VolumeMount) (d : Draft K) → Has d m.name → ClosedDraft d → ClosedDraft (add_device m d)
  unfolding add_device
  add_device-Closed m d k h = record {
    pod = record {
      mounts = h.pod.mounts;
      devices = snoc-All _ d.pod.spec.container.devices m h.pod.devices k;
      inits = h.pod.inits;
    };
  }

  pub add_init-Closed :
      (i : Container K) (d : Draft K)
      → AllNamed d.pod.spec.volumes i.mounts
      → ClosedDraft d
      → ClosedDraft (add_init i d)
  unfolding add_init
  add_init-Closed i d k h = record {
    pod = record {
      mounts = h.pod.mounts;
      devices = h.pod.devices;
      inits = snoc-All _ d.pod.spec.init_containers i h.pod.inits k;
    };
  }

  -- What changes neither volumes nor mounts.
  pub add_env-Closed :
      (name : String) (v : EnvSource) (d : Draft K) → ClosedDraft d → ClosedDraft (add_env name v d)
  unfolding add_env
  add_env-Closed name v d h = record {
    pod = record { mounts = h.pod.mounts; devices = h.pod.devices; inits = h.pod.inits };
  }

  pub increment-Closed :
      (name : String) (d : Draft K)
      → ClosedDraft d
      → ClosedDraft (increment_container_resource name d)
  unfolding increment_container_resource
  increment-Closed name d h = record {
    pod = record { mounts = h.pod.mounts; devices = h.pod.devices; inits = h.pod.inits };
  }

  pub set_label-Closed :
      (k v : String) (d : Draft K) → ClosedDraft d → ClosedDraft (set_label k v d)
  unfolding set_label
  set_label-Closed k v d h = record {
    pod = record { mounts = h.pod.mounts; devices = h.pod.devices; inits = h.pod.inits };
  }

  pub set_annotation-Closed :
      (k v : String) (d : Draft K) → ClosedDraft d → ClosedDraft (set_annotation k v d)
  unfolding set_annotation
  set_annotation-Closed k v d h = record {
    pod = record { mounts = h.pod.mounts; devices = h.pod.devices; inits = h.pod.inits };
  }

  pub select_node-Closed :
      (k v : String) (d : Draft K) → ClosedDraft d → ClosedDraft (select_node k v d)
  unfolding select_node
  select_node-Closed k v d h = record {
    pod = record { mounts = h.pod.mounts; devices = h.pod.devices; inits = h.pod.inits };
  }

  pub share-Closed : (d : Draft K) → ClosedDraft d → Ensures ClosedDraft (share d)
  unfolding share
  share-Closed d h = after-Ensures current _ (λ vm. then-Ensures _ (pure-Ensures d h))
