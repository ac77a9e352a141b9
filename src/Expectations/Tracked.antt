-- ===== src/Expectations/Tracked.antt =====
-- What a controller waits for: the deletions that it expects and has not seen yet.
use virtink.Prelude.{
  ℕ, ◌+◌, ◌-◌, ◌^◌, ◌≤◌, ◌<◌, ◌≡◌, refl, sym, subst, ◌↔◌, ◌⊎◌, inl, inr, Bool, true, false, not,
  ◌&&◌, ◌||◌, if◌then◌else◌, String, str_eq, str_eq_iff, some, List, [], ◌∷◌, length, Bool-cases,
  Option-cases, arith,
}
use virtink.Prelude.Int.{ℤ, pos, neg, ◌+ℤ◌, wrap64}
use virtink.Prelude.Map.{contains}
use virtink.Expectations.Interfaces.{KeyedStore, StringSet}
use virtink.Expectations.Counters
use virtink.Expectations.Counters.{
  ControlleeExpectations, exp_key, add_counts, fulfilled, is_expired, expectations_timeout,
}
use virtink.Expectations.Tracking.{
  Stores, Expectations, insert_all, expect_deletions, deletion_observed, get_uids,
  satisfied_expectations,
}

-- Is a key among the observations made for a controller?
abbrev pub observed : String → String → List (String × String) → Bool
observed rc k [] = false
observed rc k ((c, j) ∷ os) = (str_eq c rc && str_eq j k) || observed rc k os

module _ (S : StringSet) where
  has-insert_all :
      (ks : List String) (s : S.Set) (k : String)
      → S.has k (insert_all S ks s) ≡ (contains ks k || S.has k s)
  unfolding insert_all
  has-insert_all [] s k = refl
  has-insert_all (j ∷ ks) s k =
      ground (arith, has-insert_all ks (S.insert j s) k, S.has-insert k j s)

  len-insert_all : (ks : List String) (s : S.Set) → S.len (insert_all S ks s) ≤ length ks + S.len s
  unfolding insert_all
  len-insert_all [] s = omega arith
  len-insert_all (j ∷ ks) s = ground (arith, len-insert_all ks (S.insert j s), S.len-insert j s)

  -- The set that is left of `s` after a controller's observations.
  left : String → S.Set → List (String × String) → S.Set
  left rc s [] = s
  left rc s ((c, k) ∷ os) = left rc (if str_eq c rc && S.has k s then S.remove k s else s) os

  has-left :
      (rc j : String) (s : S.Set) (os : List (String × String))
      → S.has j (left rc s os) ≡ (S.has j s && not (observed rc j os))
  unfolding left
  has-left rc j s [] = ground arith
  has-left rc j s ((c, k) ∷ os) = ground (
    arith,
    has-left rc j (if str_eq c rc && S.has k s then S.remove k s else s) os,
    S.has-remove j k s,
    str_eq_iff k j,
    str_eq_iff c rc,
  )

  len-eq-zero_iff : (s : S.Set) → (S.len s ≡ 0) ↔ ((k : String) → S.has k s ≡ false)
  len-eq-zero_iff s = (
    λ h k. elim (Bool-cases (S.has k s)) [ inl e ↦ ground (arith, S.len-pos k s e) | inr e ↦ e ],
    S.len-zero s,
  )

module _ (C : KeyedStore ControlleeExpectations exp_key) where
  lowered :
      (c rc : String) (add del : ℤ) (r : C.Store) (e : ControlleeExpectations)
      → C.get_by_key rc r ≡ some e
      → C.get_by_key rc (Counters.lower_expectations C c add del r)
        ≡ some (if str_eq c rc then add_counts e (neg add) (neg del) else e)
  unfolding Counters.lower_expectations Counters.get_expectations add_counts
  lowered c rc add del r e h = elim (Option-cases (C.get_by_key c r)) [
    | inl n ↦ ground (arith, str_eq_iff c rc)
    | inr (f, g) ↦ grind (
      arith,
      str_eq_iff c rc,
      C.get-key c f r g,
      C.get-add rc (add_counts f (neg add) (neg del)) r,
      str_eq_iff f.key rc,
    )
  ]

module _ {P : Stores} where
  -- The observations of a sequence, one after the other.
  abbrev pub observe : List (String × String) → Expectations P → Expectations P
  observe [] u = u
  observe ((c, k) ∷ os) u = observe os (deletion_observed c k u)

  -- A controller waits for the deletions of a set, since a moment.
  Tracks : String → ℕ → P.strings.Set → Expectations P → Type 0
  Tracks rc t s u =
      (P.counters.get_by_key rc u.counters
        ≡ some (record { add = pos 0; del = pos (P.strings.len s); key = rc; timestamp = t }))
      × (P.uid_sets.get_by_key rc u.uid_store ≡ some (record { uids = s; key = rc }))
      × (P.strings.len s < 2 ^ 63)

  observed_here :
      (rc k : String) (t : ℕ) (s : P.strings.Set) (u : Expectations P)
      → Tracks rc t s u
      → Tracks rc t
          (if P.strings.has k s then P.strings.remove k s else s)
          (deletion_observed rc k u)
  unfolding deletion_observed Counters.deletion_observed Tracks add_counts get_uids ◌+ℤ◌ neg wrap64
  observed_here rc k t s u (hc, hu, b) =
      let low = lowered P.counters rc rc (pos 0) (pos 1) u.counters _ hc in
      let get =
        P.uid_sets.get-add rc (record { uids = P.strings.remove k s; key = rc }) u.uid_store in
      elim (Bool-cases (P.strings.has k s)) [
        | inl h ↦
            let one = P.strings.len-pos k s h in
            let less = P.strings.len-remove k s in grind (arith, str_eq_iff rc rc)
        | inr h ↦ grind arith
      ]

  observed_elsewhere :
      (rc c k : String) (t : ℕ) (s : P.strings.Set) (u : Expectations P)
      → str_eq c rc ≡ false
      → Tracks rc t s u
      → Tracks rc t s (deletion_observed c k u)
  unfolding deletion_observed Counters.deletion_observed Tracks get_uids
  observed_elsewhere rc c k t s u e (hc, hu, b) =
      elim (Option-cases (P.uid_sets.get_by_key c u.uid_store)) [
        | inl n ↦ grind arith
        | inr (v, g) ↦
            let low = lowered P.counters c rc (pos 0) (pos 1) u.counters _ hc in
            let get =
              P.uid_sets.get-add rc (record { uids = P.strings.remove k (v.uids); key = c })
                u.uid_store in
            grind arith
      ]

  deletion_observed-Tracks :
      (rc c k : String) (t : ℕ) (s : P.strings.Set) (u : Expectations P)
      → Tracks rc t s u
      → Tracks rc t
          (if str_eq c rc && P.strings.has k s then P.strings.remove k s else s)
          (deletion_observed c k u)
  deletion_observed-Tracks rc c k t s u h =
      let After : Bool → String → Type 0 = λ b x.
        Tracks rc t (if b && P.strings.has k s then P.strings.remove k s else s)
          (deletion_observed x k u) in
      elim (Bool-cases (str_eq c rc)) [
        | inl e ↦
            let here =
              subst (After true) (sym ((str_eq_iff c rc).0 e)) (observed_here rc k t s u h) in
            subst (λ b. After b c) (sym e) here
        | inr e ↦ subst (λ b. After b c) (sym e) (observed_elsewhere rc c k t s u e h)
      ]

  observe-Tracks :
      (rc : String) (t : ℕ) (os : List (String × String)) (s : P.strings.Set) (u : Expectations P)
      → Tracks rc t s u
      → Tracks rc t (left P.strings rc s os) (observe os u)
  unfolding left
  observe-Tracks rc t [] s u h = h
  observe-Tracks rc t ((c, k) ∷ os) s u h =
      observe-Tracks rc t os _ (deletion_observed c k u) (deletion_observed-Tracks rc c k t s u h)

  expect_deletions-Tracks :
      (rc : String) (t : ℕ) (ks : List String) (u : Expectations P)
      → length ks < 2 ^ 63
      → Tracks rc t (insert_all P.strings ks P.strings.empty) (expect_deletions t rc ks u)
  unfolding expect_deletions Tracks Counters.expect_deletions Counters.set_expectations
  expect_deletions-Tracks rc t ks u b =
      let s = insert_all P.strings ks P.strings.empty in
      let n = len-insert_all P.strings ks P.strings.empty in
      grind (
        arith,
        str_eq_iff rc rc,
        P.strings.len-empty,
        P.uid_sets.get-add rc (record { uids = s; key = rc }) u.uid_store,
        P.counters.get-add rc
            (record { add = pos 0; del = pos (P.strings.len s); key = rc; timestamp = t })
            u.counters,
      )

  satisfied-Tracks :
      (rc : String) (t now : ℕ) (s : P.strings.Set) (u : Expectations P)
      → Tracks rc t s u
      → (satisfied_expectations now rc u ≡ true)
        ↔ ((P.strings.len s ≡ 0) ⊎ (expectations_timeout < now - t))
  unfolding satisfied_expectations Counters.satisfied_expectations Tracks fulfilled is_expired
  satisfied-Tracks rc t now s u (hc, hu, b) = ground arith

  -- A controller that expects the deletions of some keys, and then sees any sequence of deletions of
  -- its own and of others, may go on exactly when each expected key is among its own observations,
  -- or the expectations are more than five minutes old.
  pub expect_deletions-satisfied_iff :
      (rc : String) (t now : ℕ) (ks : List String) (os : List (String × String))
      (u : Expectations P)
      → length ks < 2 ^ 63
      → (satisfied_expectations now rc (observe os (expect_deletions t rc ks u)) ≡ true) ↔ (
          ((k : String) → contains ks k ≡ true → observed rc k os ≡ true)
          ⊎ (expectations_timeout < now - t))
  expect_deletions-satisfied_iff rc t now ks os u b =
      let s = insert_all P.strings ks P.strings.empty in
      let tracked = observe-Tracks rc t os s _ (expect_deletions-Tracks rc t ks u b) in
      let sat = satisfied-Tracks rc t now (left P.strings rc s os) _ tracked in
      let zero_iff = len-eq-zero_iff P.strings (left P.strings rc s os) in
      let has : (k : String)
          → P.strings.has k (left P.strings rc s os) ≡ (contains ks k && not (observed rc k os)) =
        λ k. ground (
          arith,
          has-left P.strings rc k s os,
          has-insert_all P.strings ks P.strings.empty k,
          P.strings.has-empty k,
        ) in
      (
        λ h. elim (sat.0 h) [
          | inl z ↦ inl (λ k m. ground (arith, has k, zero_iff.0 z k))
          | inr late ↦ inr late
        ],
        λ h. sat.1 (elim h [
          | inl all ↦ inl (
              zero_iff.1 (λ k. elim (Bool-cases (contains ks k)) [
                | inl m ↦ ground (arith, has k, all k m)
                | inr m ↦ ground (arith, has k)
              ]))
          | inr late ↦ inr late
        ]),
      )
