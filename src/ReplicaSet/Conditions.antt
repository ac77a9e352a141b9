-- ===== src/ReplicaSet/Conditions.antt =====
-- The conditions of a replica set:
-- `getCondition` to `filterOutCondition` of pkg/controller/vmrs_controller.go.
use virtink.Prelude.{
  ◌≡◌, refl, Bool, true, false, not, ◌&&◌, ◌||◌, Option, none, some, is_some, List, [], ◌∷◌, ◌++◌,
  if◌then◌else◌, arith,
}
use virtink.ReplicaSet.Objects.{VmrsConditionType, VmrsCondition, replica_failure, paused}

abbrev pub same_type : VmrsConditionType → VmrsConditionType → Bool
same_type replica_failure replica_failure = true
same_type replica_failure paused = false
same_type paused replica_failure = false
same_type paused paused = true

unfoldable pub get_condition : List VmrsCondition → VmrsConditionType → Option VmrsCondition
get_condition [] t = none
get_condition (c ∷ cs) t = if same_type c.type_name t then some c else get_condition cs t

unfoldable pub has_condition : List VmrsCondition → VmrsConditionType → Bool
has_condition [] t = false
has_condition (c ∷ cs) t = same_type c.type_name t || has_condition cs t

unfoldable pub filter_out_condition : List VmrsCondition → VmrsConditionType → List VmrsCondition
filter_out_condition [] t = []
filter_out_condition (c ∷ cs) t =
    if same_type c.type_name t then filter_out_condition cs t else c ∷ filter_out_condition cs t

pub is_some-get_condition :
    (cs : List VmrsCondition) (t : VmrsConditionType)
    → is_some (get_condition cs t) ≡ has_condition cs t
unfolding get_condition has_condition
is_some-get_condition [] t = refl
is_some-get_condition (c ∷ cs) t = ground (arith, is_some-get_condition cs t)

pub has-filter_out :
    (cs : List VmrsCondition) (t u : VmrsConditionType)
    → has_condition (filter_out_condition cs t) u ≡ (not (same_type t u) && has_condition cs u)
unfolding filter_out_condition has_condition
has-filter_out [] t u = ground arith
has-filter_out (c ∷ cs) t u = ground (arith, has-filter_out cs t u)

pub has-append :
    (cs ds : List VmrsCondition) (t : VmrsConditionType)
    → has_condition (cs ++ ds) t ≡ (has_condition cs t || has_condition ds t)
unfolding has_condition
has-append [] ds t = refl
has-append (c ∷ cs) ds t = ground (arith, has-append cs ds t)
