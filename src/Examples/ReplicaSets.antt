-- ===== src/Examples/ReplicaSets.antt =====
-- A replica set of the machines of the examples, and its expectations.
use virtink.Prelude.{
  ℕ, suc, if◌then◌else◌, ◌+◌, ◌-◌, ◌*◌, ◌≤◌, ◌<◌, ◌≡◌, refl, ◌↔◌, ◌⊎◌, inl, inr, Bool, true, false,
  String, str_eq, Option, none, some, is_some, List, [], ◌∷◌, ◌++◌, length, drop, arith,
}
use virtink.Prelude.Int.{pos}
use virtink.Prelude.Map.{contains}
use virtink.Api.{VirtualMachine, Condition}
use virtink.Expectations.Tracking.{Expectations, expect_deletions, satisfied_expectations}
use virtink.Expectations.Counters.{expectations_timeout}
use virtink.Expectations.Tracked.{observe, observed, expect_deletions-satisfied_iff}
use virtink.ReplicaSet.Objects.{Selectors, VirtualMachineReplicaSet, replica_failure}
use virtink.ReplicaSet.Conditions.{get_condition, has_condition}
use virtink.ReplicaSet.Status.{
  calculate_status, Reports, calculate_status-Reports, calculate_status-panics_iff,
}
use virtink.ReplicaSet.Scale.{
  Calls, creation_less, sort_vms_by_creation_timestamp, created, deleted, Pass, start,
  burst_replicas, capped, get_vms_to_delete, scale_vms, clean_vms,
}
use virtink.ReplicaSet.Deletion.{
  both, swap, keep, Chosen, get_vms_to_delete-newest, clean_vms-panics_iff,
}
use virtink.ReplicaSet.Convergence.{Smooth, Passes, none_left, one_more, Passes-converge}
use virtink.ReplicaSet.Controller.{Idle, finished, reconcile, reconcile-Idle}
use virtink.ReplicaSet.Webhook.{
  validate_vmrs_spec, ValidSet, validate_vmrs_spec-nil_iff, mutate_vmrs, mutate_vmrs-default,
}
use virtink.Prelude.Int.{wrap32}
use virtink.ReplicaSet.Filter.{is_vm_available}
use virtink.Admission.{Operation, allowed}
use virtink.Client.{found, done}
use virtink.ReplicaSet.Status.{condition_of}
use virtink.ReplicaSet.Objects.{paused, VmrsStatus}
use virtink.ReplicaSet.Request.{reconcile_set, reconcile_set-sends}
use virtink.ReplicaSet.Handlers.{handle_vmrs, AdmitsSet, handle_vmrs-allowed_iff}
use virtink.Examples.Data.{kube, spec_eq, selector_eq, conditions_eq}
use virtink.Examples.Stores.{stores, no_expectations}
use virtink.Examples.Machines.{machine, meta_of}

expect_deletions-satisfied_iff_example :
    (satisfied_expectations 7 "default/web" (
        observe
          (("default/web", "default/b") ∷ ("default/web", "default/a") ∷ [])
          (expect_deletions 5 "default/web" ("default/a" ∷ "default/b" ∷ []) no_expectations))
      ≡ true)
    ↔ (((k : String)
          → contains ("default/a" ∷ "default/b" ∷ []) k ≡ true
          → observed "default/web" k
              (("default/web", "default/b") ∷ ("default/web", "default/a") ∷ [])
            ≡ true)
        ⊎ (expectations_timeout < 7 - 5))
expect_deletions-satisfied_iff_example =
    expect_deletions-satisfied_iff "default/web" 5 7 ("default/a" ∷ "default/b" ∷ [])
      (("default/web", "default/b") ∷ ("default/web", "default/a") ∷ []) no_expectations
      (omega arith)

abbrev selectors : Selectors
selectors = record {
  LabelSelector = Unit;
  as_selector = λ s. some (λ ls. is_some ls);
  set_matches = λ required ls. is_some ls;
}

abbrev set_with : Option ℕ → Bool → VirtualMachineReplicaSet kube selectors
set_with replicas is_paused = record {
  meta = meta_of "web";
  spec = record {
    replicas = elim replicas [ none ↦ none | some n ↦ some (pos n) ];
    paused = is_paused;
    selector = some tt;
    template = some (record { meta = meta_of "template"; spec = machine.spec });
  };
  status = record {
    replicas = pos 0;
    ready_replicas = pos 0;
    available_replicas = pos 0;
    observed_generation = pos 0;
    conditions = [];
  };
}

abbrev machine_at : ℕ → VirtualMachine kube
machine_at t = record machine { meta = record (machine.meta) { creation_timestamp = t } }

-- A sort by insertion.
abbrev insert_by :
    (VirtualMachine kube → VirtualMachine kube → Bool)
    → VirtualMachine kube
    → List (VirtualMachine kube)
    → List (VirtualMachine kube)
insert_by less x [] = x ∷ []
insert_by less x (y ∷ ys) = if less y x then y ∷ insert_by less x ys else x ∷ y ∷ ys

abbrev insertion_sort :
    (VirtualMachine kube → VirtualMachine kube → Bool)
    → List (VirtualMachine kube)
    → List (VirtualMachine kube)
insertion_sort less [] = []
insertion_sort less (x ∷ xs) = insert_by less x (insertion_sort less xs)

length-insert_by :
    (less : VirtualMachine kube → VirtualMachine kube → Bool) (x : VirtualMachine kube)
    (xs : List (VirtualMachine kube))
    → length (insert_by less x xs) ≡ suc (length xs)
length-insert_by less x [] = refl
length-insert_by less x (y ∷ ys) = ground (arith, length-insert_by less x ys)

length-insertion_sort :
    (less : VirtualMachine kube → VirtualMachine kube → Bool) (xs : List (VirtualMachine kube))
    → length (insertion_sort less xs) ≡ length xs
length-insertion_sort less [] = refl
length-insertion_sort less (x ∷ xs) =
    omega (arith, length-insert_by less x (insertion_sort less xs), length-insertion_sort less xs)

abbrev unsorted : List (VirtualMachine kube)
unsorted = machine_at 5 ∷ machine_at 2 ∷ machine_at 9 ∷ []

abbrev calls : Calls kube
calls = record {
  create = λ n. created;
  delete = λ vm. deleted;
  sort = insertion_sort;
  schedule = λ vms. vms;
}

get_vms_to_delete-newest_example : Chosen unsorted 2 (get_vms_to_delete calls unsorted 2)
unfolding creation_less
get_vms_to_delete-newest_example =
    get_vms_to_delete-newest calls unsorted 2 ((refl, (refl, tt)), ((refl, tt), (tt, tt)))
      (both (swap (machine_at 9) (machine_at 5) (machine_at 2 ∷ []))
        (keep (machine_at 5) (swap (machine_at 9) (machine_at 2) [])))
      (omega arith)

calls-Smooth : Smooth calls
unfolding sort_vms_by_creation_timestamp
calls-Smooth = record {
  creates = λ n. refl;
  deletes = λ vm. tt;
  sorts = λ vms. length-insertion_sort (creation_less false) vms;
  schedules = λ vms. refl;
}

abbrev one_machine : List (VirtualMachine kube)
one_machine = machine ∷ []

one_pass : Passes stores (set_with (some 3) false) 1 one_machine unsorted
unfolding scale_vms virtink.ReplicaSet.Scale.scale_by virtink.ReplicaSet.Scale.create_pass
    virtink.ReplicaSet.Scale.create_vms virtink.ReplicaSet.Scale.create_vm virtink.Prelude.Int.◌+ℤ◌
    virtink.Prelude.Int.neg
one_pass = one_more calls 5 no_expectations calls-Smooth refl none_left

Passes-converge_example : length unsorted ≡ 3
Passes-converge_example =
    Passes-converge (set_with (some 3) false) 3 1 one_machine unsorted refl one_pass (omega arith)
      (omega arith)

abbrev true_condition : List Condition → String → Bool
true_condition cs t = true

clean_vms-panics_iff_example :
    (clean_vms calls "default/web" unsorted (start no_expectations) ≡ none)
    ↔ (burst_replicas < length unsorted)
clean_vms-panics_iff_example =
    clean_vms-panics_iff calls "default/web" unsorted (start no_expectations) refl

reconcile-Idle_example :
    Idle calls true_condition no_expectations
      (reconcile calls true_condition 5 (set_with none true) (some unsorted) no_expectations)
reconcile-Idle_example =
    reconcile-Idle calls true_condition 5 (set_with none true) (some unsorted) no_expectations
      (inr (inl refl))

abbrev reported : VirtualMachineReplicaSet kube selectors
reported = record (set_with (some 3) false) {
  status = record {
    replicas = pos 3;
    ready_replicas = pos 3;
    available_replicas = pos 3;
    observed_generation = pos 1;
    conditions = [];
  };
}

calculate_status-Reports_example :
    Reports true_condition (set_with (some 3) false) unsorted none (reported.status)
    × (reported.spec ≡ (set_with (some 3) false).spec)
    × (reported.meta ≡ (set_with (some 3) false).meta)
unfolding calculate_status get_condition has_condition is_vm_available wrap32
calculate_status-Reports_example =
    calculate_status-Reports true_condition (set_with (some 3) false) reported unsorted none
      (omega arith) refl

calculate_status-panics_iff_example :
    (calculate_status true_condition (set_with none false) unsorted (some "refused") ≡ none) ↔ (
      ((set_with none false).spec.template ≡ none)
      ⊎ ((is_some {A = String} (some "refused") ≡ true)
          × (has_condition (set_with none false).status.conditions replica_failure ≡ false)
          × ((set_with none false).spec.replicas ≡ none)))
calculate_status-panics_iff_example =
    calculate_status-panics_iff true_condition (set_with none false) unsorted (some "refused")

validate_vmrs_spec-nil_iff_example :
    (validate_vmrs_spec ((set_with (some 3) false).spec) [] ≡ [])
    ↔ ValidSet ((set_with (some 3) false).spec)
validate_vmrs_spec-nil_iff_example = validate_vmrs_spec-nil_iff (set_with (some 3) false).spec []

mutate_vmrs-default_example :
    (mutate_vmrs (set_with none false) ≡ set_with (some 1) false)
    × ((c : Calls kube) (now : ℕ) (vms : List (VirtualMachine kube)) (u : Expectations stores)
        → scale_vms c now (mutate_vmrs (set_with none false)) vms u
          ≡ scale_vms c now (set_with none false) vms u)
    × (validate_vmrs_spec ((mutate_vmrs (set_with none false)).spec) []
        ≡ validate_vmrs_spec ((set_with none false).spec) [])
mutate_vmrs-default_example = mutate_vmrs-default (set_with none false) []

handle_vmrs-allowed_iff_example :
    (handle_vmrs selector_eq spec_eq (record {
      operation = Operation.update;
      object = some (set_with (some 3) false);
      old_object = some (set_with none false);
    })
      ≡ some allowed)
    ↔ AdmitsSet selector_eq spec_eq Operation.update
        (set_with (some 3) false)
        (some (set_with none false))
handle_vmrs-allowed_iff_example =
    handle_vmrs-allowed_iff selector_eq spec_eq Operation.update (set_with (some 3) false)
      (some (set_with none false))

-- The first run over a paused set writes its status.
abbrev waiting : VirtualMachineReplicaSet kube selectors
waiting = set_with (some 3) true

abbrev paused_status : VmrsStatus
paused_status = record {
  replicas = pos 0;
  ready_replicas = pos 0;
  available_replicas = pos 0;
  observed_generation = pos 1;
  conditions = condition_of paused "Paused" "VirtualMachineReplicaSet is paused" ∷ [];
}

abbrev waiting_run : VirtualMachineReplicaSet kube selectors
waiting_run = record waiting { status = paused_status }

waiting-finished :
    reconcile calls true_condition 5 waiting (some []) no_expectations
    ≡ finished waiting_run (start no_expectations)
unfolding reconcile calculate_status get_condition has_condition is_vm_available wrap32
    satisfied_expectations virtink.Expectations.Counters.satisfied_expectations
waiting-finished = ground arith

reconcile_set-sends_example :
    let a =
      reconcile_set conditions_eq calls true_condition 5 "default/web"
        (found waiting)
        (some [])
        (λ s. none)
        no_expectations in
    ((a ≡ some (record { result = done; sent = none; expectations = no_expectations }))
      ↔ (waiting.status ≡ paused_status))
    × ((a
          ≡ some
              (record { result = done; sent = some paused_status; expectations = no_expectations }))
        ↔ (¬ (waiting.status ≡ paused_status)))
reconcile_set-sends_example =
    reconcile_set-sends conditions_eq calls true_condition 5 "default/web" waiting waiting_run
      (some []) (λ s. none) no_expectations (start no_expectations) waiting-finished
