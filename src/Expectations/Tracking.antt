-- ===== src/Expectations/Tracking.antt =====
-- `UIDTrackingControllerExpectations`: the counters together with the set of keys whose deletion each
-- controller waits for. Each operation holds the lock of the key store throughout, so it is one step.
use virtink.Prelude.{ℕ, ◌==◌, Bool, not, if◌then◌else◌, String, Option, none, some, List, [], ◌∷◌}
use virtink.Prelude.Int.{ℤ, pos}
use virtink.Expectations.Interfaces.{KeyedStore, StringSet}
use virtink.Expectations.Counters
use virtink.Expectations.Counters.{ControlleeExpectations, exp_key}

pub record UidSet (S : StringSet) : Type 0 where
  pub uids : S.Set
  pub key : String

-- `UIDSetKeyFunc`
abbrev pub uid_set_key : {S : StringSet} → UidSet S → String
uid_set_key u = u.key

-- The packages that the expectations stand on.
pub record Stores : Type 1 where
  pub strings : StringSet
  pub counters : KeyedStore ControlleeExpectations exp_key
  pub uid_sets : KeyedStore (UidSet strings) uid_set_key

pub record Expectations (P : Stores) : Type 0 where
  pub counters : P.counters.Store
  pub uid_store : P.uid_sets.Store

module _ (S : StringSet) where
  unfoldable pub insert_all : List String → S.Set → S.Set
  insert_all [] s = s
  insert_all (k ∷ ks) s = insert_all ks (S.insert k s)

  unfoldable pub existing_or_new : Option S.Set → S.Set
  existing_or_new none = S.empty
  existing_or_new (some s) = if not (S.len s == 0) then s else S.empty

module _ {P : Stores} where
  unfoldable pub get_uids : String → Expectations P → Option P.strings.Set
  get_uids rc u = elim (P.uid_sets.get_by_key rc u.uid_store) [
    | none ↦ none
    | some s ↦ some (s.uids)
  ]

  -- Both expecting operations end so: the set is stored, and its size is expected.
  unfoldable pub store_uids : ℕ → String → P.strings.Set → Expectations P → Expectations P
  store_uids now rc s u = record {
    counters = Counters.expect_deletions P.counters now rc (pos (P.strings.len s)) u.counters;
    uid_store = P.uid_sets.add (record { uids = s; key = rc }) u.uid_store;
  }

  unfoldable pub expect_deletions : ℕ → String → List String → Expectations P → Expectations P
  unfolding store_uids
  expect_deletions now rc keys u = store_uids now rc (insert_all P.strings keys P.strings.empty) u

  unfoldable pub add_expected_deletion : ℕ → String → String → Expectations P → Expectations P
  unfolding existing_or_new store_uids
  add_expected_deletion now rc key u =
      store_uids now rc (P.strings.insert key (existing_or_new P.strings (get_uids rc u))) u

  -- The key is taken out of the stored set in place.
  unfoldable pub deletion_observed : String → String → Expectations P → Expectations P
  unfolding get_uids
  deletion_observed rc key u = elim (get_uids rc u) [
    | none ↦ u
    | some s ↦
        if P.strings.has key s
        then record {
          counters = Counters.deletion_observed P.counters rc u.counters;
          uid_store =
              P.uid_sets.add (record { uids = P.strings.remove key s; key = rc }) u.uid_store;
        }
        else u
  ]

  unfoldable pub delete_expectations : String → Expectations P → Expectations P
  delete_expectations rc u = record {
    counters = Counters.delete_expectations P.counters rc u.counters;
    uid_store = elim (P.uid_sets.get_by_key rc u.uid_store) [
      | none ↦ u.uid_store
      | some s ↦ P.uid_sets.delete s u.uid_store
    ];
  }

  -- The operations that the embedded counters lend.
  unfoldable pub expect_creations : ℕ → String → ℤ → Expectations P → Expectations P
  expect_creations now rc adds u = record u {
    counters = Counters.expect_creations P.counters now rc adds u.counters;
  }

  unfoldable pub creation_observed : String → Expectations P → Expectations P
  creation_observed rc u = record u {
    counters = Counters.creation_observed P.counters rc u.counters;
  }

  unfoldable pub satisfied_expectations : ℕ → String → Expectations P → Bool
  satisfied_expectations now rc u = Counters.satisfied_expectations P.counters now rc u.counters
