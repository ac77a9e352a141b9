-- ===== src/ReplicaSet/Status.antt =====
-- The status that a run of a replica set's controller writes: `calculateStatus` of
-- pkg/controller/vmrs_controller.go. A dereferenced nil pointer is `none`: the run panics.
use virtink.Prelude.{
  ℕ, ◌<◌, ◌≡◌, ap, subst, ◌∙◌, ◌^◌, ◌↔◌, ◌⊎◌, inl, inr, refl, Bool, true, false, not, ◌&&◌, String,
  Option, none, some, is_some, List, [], ◌∷◌, ◌++◌, length, if◌then◌else◌, arith, Option-cases,
}
use virtink.Prelude.Int.{ℤ, pos, neg, ◌+ℤ◌, ltb_ℤ, wrap32}
use virtink.Api.{Kube, VirtualMachine, Condition, ConditionStatus}
use virtink.ReplicaSet.Objects.{
  Labels, Selectors, VmrsConditionType, VmrsCondition, VmrsStatus, VmTemplate,
  VirtualMachineReplicaSet, replica_failure, paused,
}
use virtink.ReplicaSet.Conditions.{
  get_condition, has_condition, filter_out_condition, is_some-get_condition, has-filter_out,
  has-append,
}
use virtink.ReplicaSet.Counting.{
  Counts, IsReady, counted, counted-Counts, counted-ext, counted-bound,
}
use virtink.ReplicaSet.Filter.{is_vm_ready, is_vm_available, is_vm_available-ready}

abbrev pub condition_of : VmrsConditionType → String → String → VmrsCondition
condition_of t reason message = record {
  type_name = t;
  status = ConditionStatus.cond_true;
  reason = reason;
  message = message;
}

-- `len(vms) - replicas`
abbrev pub difference : ℕ → ℤ → ℤ
difference n replicas = pos n +ℤ neg replicas

failure_reason : ℤ → String
failure_reason diff =
    if ltb_ℤ diff (pos 0) then "FailedCreate" else if ltb_ℤ (pos 0) diff then "FailedDelete" else ""

unfoldable pub update_failure :
    ℕ → Option ℤ → Option String → List VmrsCondition → Option (List VmrsCondition)
unfolding failure_reason
update_failure n replicas none cs = elim (get_condition cs replica_failure) [
  | none ↦ some cs
  | some c ↦ some (filter_out_condition cs replica_failure)
]
update_failure n replicas (some e) cs = elim (get_condition cs replica_failure) [
  | some c ↦ some cs
  | none ↦ elim replicas [
    | none ↦ none
    | some r ↦ some (cs ++ (condition_of replica_failure (failure_reason (difference n r)) e ∷ []))
  ]
]

unfoldable pub update_paused : Bool → List VmrsCondition → List VmrsCondition
update_paused is_paused cs =
    if is_paused && not (has_condition cs paused)
    then cs ++ (condition_of paused "Paused" "VirtualMachineReplicaSet is paused" ∷ [])
    else if not is_paused && has_condition cs paused
    then filter_out_condition cs paused
    else cs

pub update_failure-has :
    (n : ℕ) (replicas : Option ℤ) (e : Option String) (cs cs' : List VmrsCondition)
    → update_failure n replicas e cs ≡ some cs'
    → (has_condition cs' replica_failure ≡ is_some e)
      × (has_condition cs' paused ≡ has_condition cs paused)
unfolding update_failure has_condition
update_failure-has n replicas none cs cs' h = ground (
  arith,
  is_some-get_condition cs replica_failure,
  has-filter_out cs replica_failure paused,
  has-filter_out cs replica_failure replica_failure,
)
update_failure-has n none (some e) cs cs' h =
    ground (arith, is_some-get_condition cs replica_failure)
update_failure-has n (some r) (some e) cs cs' h =
    let one = condition_of replica_failure (failure_reason (difference n r)) e ∷ [] in
    ground (
      arith,
      is_some-get_condition cs replica_failure,
      has-append cs one replica_failure,
      has-append cs one paused,
    )

pub update_paused-has :
    (b : Bool) (cs : List VmrsCondition)
    → (has_condition (update_paused b cs) paused ≡ b)
      × (has_condition (update_paused b cs) replica_failure ≡ has_condition cs replica_failure)
unfolding update_paused has_condition
update_paused-has b cs =
    let one = condition_of paused "Paused" "VirtualMachineReplicaSet is paused" ∷ [] in
    ground (
      arith,
      has-append cs one paused,
      has-append cs one replica_failure,
      has-filter_out cs paused paused,
      has-filter_out cs paused replica_failure,
    )

wrap32-pos : (n : ℕ) → n < 2 ^ 31 → wrap32 (pos n) ≡ pos n
unfolding wrap32
wrap32-pos n h = ground arith

-- `true_condition` is meta.IsStatusConditionTrue.
module _ {K : Kube} {L : Selectors} (true_condition : List Condition → String → Bool) where
  written :
      VirtualMachineReplicaSet K L
      → List (VirtualMachine K)
      → Labels
      → List VmrsCondition
      → VirtualMachineReplicaSet K L
  unfolding counted update_paused
  written vmrs vms required cs = record vmrs {
    status = record {
      replicas = wrap32 (pos (length vms));
      ready_replicas = wrap32 (pos (counted L (is_vm_ready true_condition) required vms));
      available_replicas = wrap32 (pos (counted L (is_vm_available true_condition) required vms));
      observed_generation = vmrs.meta.generation;
      conditions = update_paused vmrs.spec.paused cs;
    };
  }

  unfoldable pub calculate_status :
      VirtualMachineReplicaSet K L
      → List (VirtualMachine K)
      → Option String
      → Option (VirtualMachineReplicaSet K L)
  unfolding written update_failure
  calculate_status vmrs vms scale_err = elim vmrs.spec.template [
    | none ↦ none
    | some t ↦
        elim (update_failure (length vms) vmrs.spec.replicas scale_err vmrs.status.conditions) [
          | none ↦ none
          | some cs ↦ some (written vmrs vms t.meta.labels cs)
        ]
  ]

  -- What the status says after a run over `vms` that had the error `e`, if any.
  pub record Reports (vmrs : VirtualMachineReplicaSet K L) (vms : List (VirtualMachine K))
      (e : Option String) (s : VmrsStatus) : Type 0 where
    pub failure : has_condition s.conditions replica_failure ≡ is_some e
    pub is_paused : has_condition s.conditions paused ≡ vmrs.spec.paused
    pub generation : s.observed_generation ≡ vmrs.meta.generation
    pub total : s.replicas ≡ pos (length vms)
    pub template : VmTemplate K
    pub is_template : vmrs.spec.template ≡ some template
    pub count : ℕ
    pub counts : Counts (IsReady L true_condition template.meta.labels) vms count
    pub ready : s.ready_replicas ≡ pos count
    pub available : s.available_replicas ≡ pos count

  written-Reports :
      (vmrs : VirtualMachineReplicaSet K L) (vms : List (VirtualMachine K)) (t : VmTemplate K)
      (e : Option String) (cs : List VmrsCondition)
      → length vms < 2 ^ 31
      → vmrs.spec.template ≡ some t
      → has_condition cs replica_failure ≡ is_some e
      → Reports vmrs vms e ((written vmrs vms t.meta.labels cs).status)
  unfolding written
  written-Reports vmrs vms t e cs b n f =
      let required = t.meta.labels in
      let has = update_paused-has vmrs.spec.paused cs in
      let r = counted L (is_vm_ready true_condition) required vms in
      let bound = counted-bound L (is_vm_ready true_condition) required vms in
      let fits = wrap32-pos r (omega arith) in
      record {
        failure = has.1 ∙ f;
        is_paused = has.0;
        generation = refl;
        total = wrap32-pos (length vms) b;
        template = t;
        is_template = n;
        count = r;
        counts = counted-Counts L true_condition required vms;
        ready = fits;
        available =
            ap (λ k. wrap32 (pos k))
              (counted-ext L (is_vm_available true_condition) (is_vm_ready true_condition) required
                (is_vm_available-ready true_condition) vms)
            ∙ fits;
      }

  calculate_status-written :
      (vmrs vmrs' : VirtualMachineReplicaSet K L) (vms : List (VirtualMachine K))
      (e : Option String)
      → calculate_status vmrs vms e ≡ some vmrs'
      → (cs : List VmrsCondition) × (t : VmTemplate K) × (vmrs.spec.template ≡ some t)
        × (update_failure (length vms) vmrs.spec.replicas e vmrs.status.conditions ≡ some cs)
        × (written vmrs vms t.meta.labels cs ≡ vmrs')
  unfolding calculate_status
  calculate_status-written vmrs vmrs' vms e h = elim (Option-cases vmrs.spec.template) [
    | inl n ↦ absurd (ground arith)
    | inr (t, n) ↦
        elim (Option-cases
          (update_failure (length vms) vmrs.spec.replicas e vmrs.status.conditions)) [
            | inl f ↦ absurd (ground arith)
            | inr (cs, f) ↦ (cs, t, n, f, ground arith)
          ]
  ]

  -- A run over fewer than 2 ^ 31 machines writes a status with their number, the generation of the set, the
  -- condition ReplicaFailure exactly when the run had an error, and the condition ReplicaPaused exactly
  -- when the set is paused. As ready, and likewise as available, it counts the machines that have the
  -- template's labels, are running, are not being deleted, and have a true condition Ready. No other field of the set
  -- changes.
  pub calculate_status-Reports :
      (vmrs vmrs' : VirtualMachineReplicaSet K L) (vms : List (VirtualMachine K))
      (e : Option String)
      → length vms < 2 ^ 31
      → calculate_status vmrs vms e ≡ some vmrs'
      → Reports vmrs vms e (vmrs'.status) × (vmrs'.spec ≡ vmrs.spec) × (vmrs'.meta ≡ vmrs.meta)
  unfolding written
  calculate_status-Reports vmrs vmrs' vms e b h =
      let (cs, t, n, f, w) = calculate_status-written vmrs vmrs' vms e h in
      let has = update_failure-has (length vms) vmrs.spec.replicas e vmrs.status.conditions cs f in
      subst (λ v. Reports vmrs vms e (v.status) × (v.spec ≡ vmrs.spec) × (v.meta ≡ vmrs.meta)) w
        (written-Reports vmrs vms t e cs b n (has.0), refl, refl)

  -- A run panics exactly when the set has no template, or when the run has an error that no condition
  -- shows yet and the set has no number of replicas.
  pub calculate_status-panics_iff :
      (vmrs : VirtualMachineReplicaSet K L) (vms : List (VirtualMachine K)) (e : Option String)
      → (calculate_status vmrs vms e ≡ none) ↔ (
          (vmrs.spec.template ≡ none)
          ⊎ ((is_some e ≡ true)
              × (has_condition vmrs.status.conditions replica_failure ≡ false)
              × (vmrs.spec.replicas ≡ none)))
  unfolding calculate_status
  calculate_status-panics_iff vmrs vms e = elim (Option-cases vmrs.spec.template) [
    | inl n ↦ ground arith
    | inr (t, n) ↦ elim (Option-cases e) [
      | inl m ↦ elim (Option-cases (get_condition vmrs.status.conditions replica_failure)) [
        | inl g ↦ ground arith
        | inr (c, g) ↦ ground arith
      ]
      | inr (x, m) ↦ ground (arith, is_some-get_condition vmrs.status.conditions replica_failure)
    ]
  ]
