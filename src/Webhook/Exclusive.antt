-- ===== src/Webhook/Exclusive.antt =====
-- The checks of alternatives of which one must be given: binding methods, volume and network sources.
use virtink.Prelude.{
  ℕ, suc, ◌+◌, ◌≤◌, ◌≡◌, ◌≢◌, refl, ◌↔◌, ◌==◌, Option, none, some, if◌then◌else◌, ltb, [], ◌∷◌,
  ◌++◌, arith, append-eq-nil,
}
use virtink.Field.{FieldError, ErrorList, when}

-- `if alternative != nil { cnt++ }`
abbrev pub bump {ℓ} : {A : Type ℓ} → ℕ → Option A → ℕ
bump cnt none = cnt
bump cnt (some _) = suc cnt

-- With `cnt` alternatives found so far, this one included: a second one is forbidden, and the first
-- is checked.
abbrev pub alternative {ℓ} : {A : Type ℓ} → ℕ → Option A → FieldError → (A → ErrorList) → ErrorList
alternative cnt none surplus check = []
alternative cnt (some a) surplus check = if ltb 1 cnt then surplus ∷ [] else check a

abbrev pub nothing_more {ℓ} : {A : Type ℓ} → A → ErrorList
nothing_more _ = []

abbrev pub IfGiven {ℓ} : {A : Type ℓ} → (A → Type 0) → Option A → Type 0
IfGiven P none = Unit
IfGiven P (some a) = P a

-- An alternative that is not the second one is accepted if its check is.
abbrev Accepted {ℓ} : {A : Type ℓ} → ℕ → (A → Type 0) → Option A → Type 0
Accepted cnt P none = Unit
Accepted cnt P (some a) = (cnt ≤ 1) × P a

alternative-nil_iff {ℓ} :
    {A : Type ℓ} (cnt : ℕ) (P : A → Type 0) (o : Option A) (surplus : FieldError)
    (check : A → ErrorList)
    → ((a : A) → (check a ≡ []) ↔ P a)
    → (alternative cnt o surplus check ≡ []) ↔ Accepted cnt P o
alternative-nil_iff cnt P none surplus check h = (λ _. tt, λ _. refl)
alternative-nil_iff cnt P (some a) surplus check h = ground (arith, h a)

-- Five alternatives of which one has to be given.
module _ {A B C D E : Type 0} (PA : A → Type 0) (PB : B → Type 0) (PC : C → Type 0)
    (PD : D → Type 0) (PE : E → Type 0) where
  abbrev pub OneOfFive : Option A → Option B → Option C → Option D → Option E → Type 0
  OneOfFive a b c d e =
      (bump 0 a + bump 0 b + bump 0 c + bump 0 d + bump 0 e ≡ 1)
      × IfGiven PA a
      × IfGiven PB b
      × IfGiven PC c
      × IfGiven PD d
      × IfGiven PE e

  abbrev AllAccepted : Option A → Option B → Option C → Option D → Option E → Type 0
  AllAccepted a b c d e =
      let na = bump 0 a in
      let nb = bump na b in
      let nc = bump nb c in
      let nd = bump nc d in
      let ne = bump nd e in
      Accepted na PA a
      × Accepted nb PB b
      × Accepted nc PC c
      × Accepted nd PD d
      × Accepted ne PE e
      × (ne ≢ 0)

  accepted-one :
      (a : Option A) (b : Option B) (c : Option C) (d : Option D) (e : Option E)
      → AllAccepted a b c d e ↔ OneOfFive a b c d e
  accepted-one none none none none none = ground arith
  accepted-one _ _ _ _ _ = ground arith

when-zero-nil : (n : ℕ) (e : FieldError) → when (n == 0) e ≡ [] → n ≢ 0
when-zero-nil n e h = ground arith

when-nonzero : (n : ℕ) (e : FieldError) → n ≢ 0 → when (n == 0) e ≡ []
when-nonzero n e h = ground arith

pub append_five :
    (a b c d e : ErrorList)
    → (a ++ (b ++ (c ++ (d ++ e))) ≡ []) ↔ ((a ≡ []) × (b ≡ []) × (c ≡ []) × (d ≡ []) × (e ≡ []))
append_five a b c d e = ground (
  arith,
  append-eq-nil a (b ++ (c ++ (d ++ e))),
  append-eq-nil b (c ++ (d ++ e)),
  append-eq-nil c (d ++ e),
  append-eq-nil d e,
)

pub append_six :
    (a b c d e f : ErrorList)
    → (a ++ (b ++ (c ++ (d ++ (e ++ f)))) ≡ [])
      ↔ ((a ≡ []) × (b ≡ []) × (c ≡ []) × (d ≡ []) × (e ≡ []) × (f ≡ []))
append_six a b c d e f = ground (
  arith,
  append-eq-nil a (b ++ (c ++ (d ++ (e ++ f)))),
  append-eq-nil b (c ++ (d ++ (e ++ f))),
  append-eq-nil c (d ++ (e ++ f)),
  append-eq-nil d (e ++ f),
  append-eq-nil e f,
)

-- The errors of five alternatives and of the count at the end: there is none exactly when one
-- alternative is given and its check accepts it.
pub five-nil_iff :
    {A B C D E : Type 0} (PA : A → Type 0) (PB : B → Type 0) (PC : C → Type 0) (PD : D → Type 0)
    (PE : E → Type 0) (a : Option A) (b : Option B) (c : Option C) (d : Option D) (e : Option E)
    (sa sb sc sd se last : FieldError) (fa : A → ErrorList) (fb : B → ErrorList)
    (fc : C → ErrorList) (fd : D → ErrorList) (fe : E → ErrorList)
    → ((x : A) → (fa x ≡ []) ↔ PA x)
    → ((x : B) → (fb x ≡ []) ↔ PB x)
    → ((x : C) → (fc x ≡ []) ↔ PC x)
    → ((x : D) → (fd x ≡ []) ↔ PD x)
    → ((x : E) → (fe x ≡ []) ↔ PE x)
    → let na = bump 0 a in
      let nb = bump na b in
      let nc = bump nb c in
      let nd = bump nc d in
      let ne = bump nd e in
      (alternative na a sa fa
          ++ (alternative nb b sb fb
              ++ (alternative nc c sc fc
                  ++ (alternative nd d sd fd ++ (alternative ne e se fe ++ when (ne == 0) last))))
        ≡ [])
      ↔ OneOfFive PA PB PC PD PE a b c d e
five-nil_iff PA PB PC PD PE a b c d e sa sb sc sd se last fa fb fc fd fe ha hb hc hd he =
    let na = bump 0 a in
    let nb = bump na b in
    let nc = bump nb c in
    let nd = bump nc d in
    let ne = bump nd e in
    let parts =
      append_six (alternative na a sa fa) (alternative nb b sb fb) (alternative nc c sc fc)
        (alternative nd d sd fd) (alternative ne e se fe) (when (ne == 0) last) in
    let ia = alternative-nil_iff na PA a sa fa ha in
    let ib = alternative-nil_iff nb PB b sb fb hb in
    let ic = alternative-nil_iff nc PC c sc fc hc in
    let id = alternative-nil_iff nd PD d sd fd hd in
    let ie = alternative-nil_iff ne PE e se fe he in
    let one = accepted-one PA PB PC PD PE a b c d e in
    (
      λ h.
          let (xa, xb, xc, xd, xe, x) = parts.0 h in
          one.0 (ia.0 xa, ib.0 xb, ic.0 xc, id.0 xd, ie.0 xe, when-zero-nil ne last x),
      λ h.
          let (xa, xb, xc, xd, xe, x) = one.1 h in
          parts.1 (ia.1 xa, ib.1 xb, ic.1 xc, id.1 xd, ie.1 xe, when-nonzero ne last x),
    )
