-- ===== src/Machine/Ensures.antt =====
-- Partial correctness: what holds of the result of a run that returns.
use virtink.Prelude.{if◌then◌else◌, Bool, true, false}
use virtink.Api.{Kube}
use virtink.Machine.Monad.{
  State, Outcome, returned, raised, M, and_then, ◌>>=◌, ◌>>◌, pure, raise, Error,
}

abbrev pub Holds {ℓ κ} : {K : Kube} {A : Type ℓ} → (A → Type κ) → Outcome K A → Type κ
Holds P (returned a s) = P a
Holds P (raised e s) = Unit

pub record Ensures {ℓ κ} {K : Kube} {A : Type ℓ} (P : A → Type κ) (m : M K A) : Type (ℓ ⊔ κ) where
  pub run : (s : State K) → Holds P (m s)

module _ {ℓ κ μ ν} {K : Kube} {A : Type ℓ} {B : Type κ} {Q : A → Type μ} {P : B → Type ν} where
  and_then-Holds :
      (o : Outcome K A) (f : A → M K B)
      → Holds Q o
      → ((a : A) → Q a → Ensures P (f a))
      → Holds P (and_then o f)
  and_then-Holds (returned a s) f h k = (k a h).run s
  and_then-Holds (raised e s) f h k = tt

  pub bind-Ensures :
      {m : M K A} {f : A → M K B}
      → Ensures Q m
      → ((a : A) → Q a → Ensures P (f a))
      → Ensures P (m >>= f)
  unfolding ◌>>=◌
  bind-Ensures {m} {f} h k = record { run = λ s. and_then-Holds (m s) f (h.run s) k }

module _ {ℓ κ ν} {K : Kube} {A : Type ℓ} {B : Type κ} {P : B → Type ν} where
  after-Holds :
      (o : Outcome K A) (f : A → M K B) → ((a : A) → Ensures P (f a)) → Holds P (and_then o f)
  after-Holds (returned a s) f k = (k a).run s
  after-Holds (raised e s) f k = tt

  -- Whatever the first part gives.
  pub after-Ensures :
      (m : M K A) (f : A → M K B) → ((a : A) → Ensures P (f a)) → Ensures P (m >>= f)
  unfolding ◌>>=◌
  after-Ensures m f k = record { run = λ s. after-Holds (m s) f k }

module _ {ℓ κ} {K : Kube} {A : Type ℓ} {P : A → Type κ} where
  pub pure-Ensures : (a : A) → P a → Ensures {K = K} P (pure a)
  unfolding pure
  pure-Ensures a h = record { run = λ s. h }

  pub raise-Ensures : (e : Error) → Ensures {K = K} P (raise e)
  unfolding raise
  raise-Ensures e = record { run = λ s. tt }

  pub if-Ensures :
      (b : Bool) {m n : M K A} → Ensures P m → Ensures P n → Ensures P (if b then m else n)
  if-Ensures true h k = h
  if-Ensures false h k = k

  pub then-Ensures : (m : M K (Unit {0})) {k : M K A} → Ensures P k → Ensures P (m >> k)
  unfolding ◌>>◌
  then-Ensures m {k} h = after-Ensures m (λ _. k) (λ _. h)
