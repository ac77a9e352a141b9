-- ===== src/Webhook/Names.antt =====
-- The loops of the webhook over named elements: a map of the names seen so far reports duplicates.
use virtink.Prelude.{
  ℕ, suc, ◌≡◌, refl, ◌≢◌, ◌↔◌, false, String, str_eq_iff, List, [], ◌∷◌, ◌++◌, map, arith, All,
  append-eq-nil,
}
use virtink.Prelude.Map.{contains}
use virtink.Field.{FieldError, ErrorList, when, when-eq-nil}

-- No name stands twice.
abbrev pub AllDistinct : List String → Type 0
AllDistinct [] = Unit
AllDistinct (n ∷ ns) = All (λ m. n ≢ m) ns × AllDistinct ns

abbrev pub Disjoint : List String → List String → Type 0
Disjoint seen ns = All (λ n. contains seen n ≡ false) ns

Disjoint-nil : (ns : List String) → Disjoint [] ns
Disjoint-nil [] = tt
Disjoint-nil (n ∷ ns) = (refl, Disjoint-nil ns)

Disjoint-cons :
    (s : String) (seen ns : List String)
    → Disjoint (s ∷ seen) ns ↔ (All (λ m. s ≢ m) ns × Disjoint seen ns)
Disjoint-cons s seen [] = (λ _. (tt, tt), λ _. tt)
Disjoint-cons s seen (n ∷ ns) =
    let ih = Disjoint-cons s seen ns in
    (
      λ h. (
        (ground (arith, str_eq_iff s n, h.0), (ih.0 h.1).0),
        (ground (arith, h.0), (ih.0 h.1).1),
      ),
      λ h. (ground (arith, str_eq_iff s n, h.0.0, h.1.0), ih.1 (h.0.1, h.1.1)),
    )

-- The names seen when such a loop is over.
abbrev pub seen_after {ℓ} : {A : Type ℓ} → (A → String) → List String → List A → List String
seen_after name seen [] = seen
seen_after name seen (x ∷ xs) = seen_after name (name x ∷ seen) xs

-- Every text of the first list differs from every one of the second.
abbrev Apart : List String → List String → Type 0
Apart ms ns = All (λ m. All (λ n. m ≢ n) ns) ms

Disjoint-seen_after {ℓ} :
    {A : Type ℓ} (name : A → String) (seen : List String) (xs : List A) (ns : List String)
    → Disjoint (seen_after name seen xs) ns ↔ (Disjoint seen ns × Apart (map name xs) ns)
Disjoint-seen_after name seen [] ns = (λ h. (h, tt), λ h. h.0)
Disjoint-seen_after name seen (x ∷ xs) ns =
    let ih = Disjoint-seen_after name (name x ∷ seen) xs ns in
    let one = Disjoint-cons (name x) seen ns in
    (
      λ h. let (d, a) = ih.0 h in let (n, o) = one.0 d in (o, (n, a)),
      λ h. ih.1 (one.1 (h.1.0, h.0), h.1.1),
    )

All-append_iff :
    (P : String → Type 0) (ms ns : List String) → All P (ms ++ ns) ↔ (All P ms × All P ns)
All-append_iff P [] ns = (λ h. (tt, h), λ h. h.1)
All-append_iff P (m ∷ ms) ns =
    let ih = All-append_iff P ms ns in
    (λ h. let (a, b) = ih.0 h.1 in ((h.0, a), b), λ h. (h.0.0, ih.1 (h.0.1, h.1)))

AllDistinct-append :
    (ms ns : List String) → AllDistinct (ms ++ ns) ↔ (AllDistinct ms × AllDistinct ns × Apart ms ns)
AllDistinct-append [] ns = (λ h. (tt, h, tt), λ h. h.1)
AllDistinct-append (m ∷ ms) ns =
    let ih = AllDistinct-append ms ns in
    let here = All-append_iff (λ k. m ≢ k) ms ns in
    (
      λ h. let (a, b, c) = ih.0 h.1 in let (x, y) = here.0 h.0 in ((x, a), b, (y, c)),
      λ h. (here.1 (h.0.0, h.2.0), ih.1 (h.0.1, h.1, h.2.1)),
    )

module _ {A : Type 0} (name : A → String) (duplicate : ℕ → A → FieldError)
    (check : ℕ → A → ErrorList) where
  -- `for i, x := range xs`, from index `i` on
  unfoldable pub each_named : List String → ℕ → List A → ErrorList
  each_named seen i [] = []
  each_named seen i (x ∷ xs) =
      when (contains seen (name x)) (duplicate i x)
      ++ (check i x ++ each_named (name x ∷ seen) (suc i) xs)

  module _ (Valid : A → Type 0) (checks : (i : ℕ) (x : A) → (check i x ≡ []) ↔ Valid x) where
    pub each_named-from :
        (seen : List String) (i : ℕ) (xs : List A)
        → (each_named seen i xs ≡ [])
          ↔ (Disjoint seen (map name xs) × AllDistinct (map name xs) × All Valid xs)
    unfolding each_named
    each_named-from seen i [] = (λ _. (tt, tt, tt), λ _. refl)
    each_named-from seen i (x ∷ xs) =
        let rest = each_named (name x ∷ seen) (suc i) xs in
        let first =
          append-eq-nil (when (contains seen (name x)) (duplicate i x)) (check i x ++ rest) in
        let later = append-eq-nil (check i x) rest in
        let fresh = when-eq-nil (contains seen (name x)) (duplicate i x) in
        let others = Disjoint-cons (name x) seen (map name xs) in
        let ih = each_named-from (name x ∷ seen) (suc i) xs in
        (
          λ h.
              let (a, b) = first.0 h in
              let (c, d) = later.0 b in
              let (disjoint, distinct, valid) = ih.0 d in
              let (apart, old) = others.0 disjoint in
              ((fresh.0 a, old), (apart, distinct), ((checks i x).0 c, valid)),
          λ h. first.1 (
            fresh.1 h.0.0,
            later.1 ((checks i x).1 h.2.0, ih.1 (others.1 (h.1.0, h.0.1), h.1.1, h.2.1)),
          ),
        )

    -- A loop that starts with no name seen reports nothing exactly when the names are distinct and
    -- every element is valid.
    pub each_named-nil_iff :
        (xs : List A) → (each_named [] 0 xs ≡ []) ↔ (AllDistinct (map name xs) × All Valid xs)
    each_named-nil_iff xs =
        let e = each_named-from [] 0 xs in
        (λ h. let r = e.0 h in (r.1, r.2), λ h. e.1 (Disjoint-nil (map name xs), h.0, h.1))

-- Two loops in a row that share one map of names.
module _ {A B : Type 0} (name_a : A → String) (dup_a : ℕ → A → FieldError)
    (check_a : ℕ → A → ErrorList) (name_b : B → String) (dup_b : ℕ → B → FieldError)
    (check_b : ℕ → B → ErrorList) (PA : A → Type 0) (PB : B → Type 0)
    (checks_a : (i : ℕ) (x : A) → (check_a i x ≡ []) ↔ PA x)
    (checks_b : (i : ℕ) (x : B) → (check_b i x ≡ []) ↔ PB x) where
  pub each_named-shared_iff :
      (xs : List A) (ys : List B)
      → ((each_named name_a dup_a check_a [] 0 xs ≡ [])
          × (each_named name_b dup_b check_b (seen_after name_a [] xs) 0 ys ≡ []))
        ↔ (AllDistinct (map name_a xs ++ map name_b ys) × All PA xs × All PB ys)
  each_named-shared_iff xs ys =
      let first = each_named-nil_iff name_a dup_a check_a PA checks_a xs in
      let second =
        each_named-from name_b dup_b check_b PB checks_b (seen_after name_a [] xs) 0 ys in
      let both = AllDistinct-append (map name_a xs) (map name_b ys) in
      let seen = Disjoint-seen_after name_a [] xs (map name_b ys) in
      (
        λ h.
            let (da, va) = first.0 h.0 in
            let (dj, db, vb) = second.0 h.1 in (both.1 (da, db, (seen.0 dj).1), va, vb),
        λ h.
            let (da, db, apart) = both.0 h.0 in
            (first.1 (da, h.1), second.1 (seen.1 (Disjoint-nil (map name_b ys), apart), db, h.2)),
      )
