-- ===== src/Expectations/Counters.antt =====
-- `ControllerExpectations`: for each controller a pair of counters of creations and deletions that it
-- waits for, pkg/controller/expectations/expectations.go. The counters are int64; a time is in
-- nanoseconds, and the current one is an argument.
use virtink.Prelude.{
  ℕ, ◌-◌, ◌*◌, ◌^◌, Bool, true, ◌&&◌, ◌||◌, ltb, String, Option, none, some, List, [], ◌∷◌,
}
use virtink.Prelude.Int.{ℤ, pos, neg, ◌+ℤ◌, leb_ℤ, wrap64}
use virtink.Expectations.Interfaces.{KeyedStore}

pub record ControlleeExpectations : Type 0 where
  pub add : ℤ
  pub del : ℤ
  pub key : String
  pub timestamp : ℕ

-- `ExpKeyFunc`, on the items that the store holds
abbrev pub exp_key : ControlleeExpectations → String
exp_key e = e.key

-- five minutes
abbrev pub expectations_timeout : ℕ
expectations_timeout = 5 * 60 * 10 ^ 9

-- `exp.Add`: two atomic additions, which wrap around.
unfoldable pub add_counts : ControlleeExpectations → ℤ → ℤ → ControlleeExpectations
add_counts e add del = record e { add = wrap64 (e.add +ℤ add); del = wrap64 (e.del +ℤ del) }

unfoldable pub fulfilled : ControlleeExpectations → Bool
fulfilled e = leb_ℤ e.add (pos 0) && leb_ℤ e.del (pos 0)

-- A clock that has gone back gives no time since, as a negative duration in the code.
unfoldable pub is_expired : ℕ → ControlleeExpectations → Bool
is_expired now e = ltb expectations_timeout (now - e.timestamp)

module _ (E : KeyedStore ControlleeExpectations exp_key) where
  unfoldable pub get_expectations : String → E.Store → Option ControlleeExpectations
  get_expectations k r = E.get_by_key k r

  unfoldable pub delete_expectations : String → E.Store → E.Store
  delete_expectations k r = elim (E.get_by_key k r) [ none ↦ r | some e ↦ E.delete e r ]

  unfoldable pub satisfied_expectations : ℕ → String → E.Store → Bool
  unfolding get_expectations
  satisfied_expectations now k r = elim (get_expectations k r) [
    | some e ↦ fulfilled e || is_expired now e
    | none ↦ true
  ]

  unfoldable pub set_expectations : ℕ → String → ℤ → ℤ → E.Store → E.Store
  set_expectations now k add del r =
      E.add (record { add = add; del = del; key = k; timestamp = now }) r

  unfoldable pub expect_creations : ℕ → String → ℤ → E.Store → E.Store
  unfolding set_expectations
  expect_creations now k adds r = set_expectations now k adds (pos 0) r

  unfoldable pub expect_deletions : ℕ → String → ℤ → E.Store → E.Store
  unfolding set_expectations
  expect_deletions now k dels r = set_expectations now k (pos 0) dels r

  -- The stored counters are changed in place: the item is stored again under its own key.
  unfoldable pub lower_expectations : String → ℤ → ℤ → E.Store → E.Store
  unfolding add_counts get_expectations
  lower_expectations k add del r = elim (get_expectations k r) [
    | none ↦ r
    | some e ↦ E.add (add_counts e (neg add) (neg del)) r
  ]

  unfoldable pub raise_expectations : String → ℤ → ℤ → E.Store → E.Store
  unfolding add_counts get_expectations
  raise_expectations k add del r = elim (get_expectations k r) [
    | none ↦ r
    | some e ↦ E.add (add_counts e add del) r
  ]

  unfoldable pub creation_observed : String → E.Store → E.Store
  unfolding lower_expectations
  creation_observed k r = lower_expectations k (pos 1) (pos 0) r

  unfoldable pub deletion_observed : String → E.Store → E.Store
  unfolding lower_expectations
  deletion_observed k r = lower_expectations k (pos 0) (pos 1) r

  pending : E.Store → ℤ → List String → ℤ
  pending r sum [] = sum
  pending r sum (k ∷ ks) = elim (get_expectations k r) [
    | none ↦ pending r sum ks
    | some e ↦ pending r (wrap64 (sum +ℤ e.add)) ks
  ]

  unfoldable pub all_pending_creations : E.Store → ℤ
  unfolding pending
  all_pending_creations r = pending r (pos 0) (E.list_keys r)
