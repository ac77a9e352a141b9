-- ===== src/Examples/Data.antt =====
-- The parameters of the models, as concrete functions: quantities are integers, the stores and the sets
-- are lists.
use native.Mathlib.Decide.{ℕ_discrete}
use virtink.Prelude.{
  List, Option, Bool, true, false, ◌≡◌, ◌↔◌, refl, String, str_eq, str_eq_iff, Bool-cases, inl, inr,
  arith, Eq, ◌^◌, if◌then◌else◌,
}
use virtink.Prelude.Int.{ℤ, pos, ◌+ℤ◌, ltb_ℤ, eqb_ℤ}
use virtink.ReplicaSet.Objects.{VmrsCondition}
use virtink.Api.{Kube, VirtualMachineSpec, Volume}

-- Sizes are told apart only as far as the examples need.
abbrev pub parse : String → ℤ
parse s =
    if str_eq s "1Gi" then pos (2 ^ 30) else if str_eq s "256Mi" then pos (2 ^ 28) else pos 1024

abbrev pub kube : Kube
kube = record {
  Affinity = Unit;
  Toleration = Unit;
  Probe = Unit;
  Container = Unit;
  OtherVolumeSource = Unit;
  Quantity = ℤ;
  zero_quantity = pos 0;
  is_zero = λ q. eqb_ℤ q (pos 0);
  value = λ q. q;
  less = ltb_ℤ;
  equal = eqb_ℤ;
  add = ◌+ℤ◌;
  must_parse = parse;
  new_quantity = λ n. n;
  keep_apart = λ a name. tt;
}

pub ℤ_discrete : Discrete ℤ
ℤ_discrete = hlevel (ℕ_discrete)

pub String_discrete : Discrete String
String_discrete a b = elim (Bool-cases (str_eq a b)) [
  | inl e ↦ yes ((str_eq_iff a b).0 e)
  | inr e ↦ no (λ p. ground (arith, str_eq_iff a b))
]

abbrev is_yes : {A : Type 0} → Dec A → Bool
is_yes (yes _) = true
is_yes (no _) = false

pub is_yes_iff : {A : Type 0} (d : Dec A) → (is_yes d ≡ true) ↔ A
is_yes_iff (yes a) = (λ _. a, λ _. refl)
is_yes_iff (no f) = (λ h. cc, λ a. absurd (f a))

abbrev eq_of : {A : Type 0} → Discrete A → Eq A
eq_of d = record { beq = λ a b. is_yes (d a b); beq_iff = λ a b. is_yes_iff (d a b) }

pub spec_discrete : Discrete (VirtualMachineSpec kube)
spec_discrete = hlevel (ℕ_discrete, String_discrete, ℤ_discrete)

abbrev pub spec_eq : Eq (VirtualMachineSpec kube)
spec_eq = eq_of spec_discrete

pub volume_discrete : Discrete (Volume kube)
volume_discrete = hlevel (ℕ_discrete, String_discrete, ℤ_discrete)

abbrev pub volume_eq : Eq (Volume kube)
volume_eq = eq_of volume_discrete

pub selector_discrete : Discrete (Option (Unit {0}))
selector_discrete = hlevel

-- A selector without any content.
abbrev pub selector_eq : Eq (Option (Unit {0}))
selector_eq = eq_of selector_discrete

pub conditions_discrete : Discrete (List VmrsCondition)
conditions_discrete = hlevel String_discrete

abbrev pub conditions_eq : Eq (List VmrsCondition)
conditions_eq = eq_of conditions_discrete
