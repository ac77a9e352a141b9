-- ===== src/Machine/Makes.antt =====
-- The calls that code makes: a predicate of every call that a run adds to those made before.
use virtink.Prelude.{
  ◌≡◌, refl, sym, ap, ◌∙◌, Bool, true, false, List, [], ◌∷◌, ◌++◌, All, if◌then◌else◌,
}
use virtink.Api.{Kube, VirtualMachine}
use virtink.Machine.Ensures.{Ensures, Holds}
use virtink.Machine.Monad.{
  State, Outcome, returned, raised, M, and_then, ◌>>=◌, ◌>>◌, final, Call, call, current, put, pure,
  raise, when_do, Error,
}

pub record Adds {K : Kube} (P : Call K → Type 0) (before after : List (Call K)) : Type 0 where
  pub new : List (Call K)
  pub added : after ≡ new ++ before
  pub each : All P new

pub record Makes {ℓ} {K : Kube} (P : Call K → Type 0) {A : Type ℓ} (m : M K A) : Type ℓ where
  pub run : (s : State K) → Adds P s.calls (final (m s)).calls

module _ {K : Kube} (P : Call K → Type 0) where
  append_assoc : (xs ys zs : List (Call K)) → (xs ++ ys) ++ zs ≡ xs ++ (ys ++ zs)
  append_assoc [] ys zs = refl
  append_assoc (x ∷ xs) ys zs = ap (λ l. x ∷ l) (append_assoc xs ys zs)

  append-All : (xs ys : List (Call K)) → All P xs → All P ys → All P (xs ++ ys)
  append-All [] ys h k = k
  append-All (x ∷ xs) ys h k = (h.0, append-All xs ys h.1 k)

  pub no-Adds : (calls : List (Call K)) → Adds P calls calls
  no-Adds calls = record { new = []; added = refl; each = tt }

  pub chain-Adds : {a b d : List (Call K)} → Adds P a b → Adds P b d → Adds P a d
  chain-Adds {a = a} h k = record {
    new = k.new ++ h.new;
    added = k.added ∙ ap (λ l. k.new ++ l) h.added ∙ sym (append_assoc k.new h.new a);
    each = append-All k.new h.new k.each h.each;
  }

  and_then-Adds {ℓ κ} :
      {A : Type ℓ} {B : Type κ} (o : Outcome K A) (f : A → M K B) (before : List (Call K))
      → Adds P before (final o).calls
      → ((a : A) → Makes P (f a))
      → Adds P before (final (and_then o f)).calls
  and_then-Adds (returned a s) f before h k = chain-Adds h ((k a).run s)
  and_then-Adds (raised e s) f before h k = h

  pub bind-Makes {ℓ κ} :
      {A : Type ℓ} {B : Type κ} {m : M K A} {f : A → M K B}
      → Makes P m
      → ((a : A) → Makes P (f a))
      → Makes P (m >>= f)
  unfolding ◌>>=◌
  bind-Makes {m = m} {f = f} h k = record { run = λ s. and_then-Adds (m s) f s.calls (h.run s) k }

  pub then-Makes {ℓ} :
      {B : Type ℓ} {m : M K (Unit {0})} {k : M K B} → Makes P m → Makes P k → Makes P (m >> k)
  unfolding ◌>>◌
  then-Makes h k = bind-Makes h (λ _. k)

  pub pure-Makes {ℓ} : {A : Type ℓ} (a : A) → Makes P (pure a)
  unfolding pure
  pure-Makes a = record { run = λ s. no-Adds s.calls }

  pub raise-Makes {ℓ} : {A : Type ℓ} (e : Error) → Makes P {A = A} (raise e)
  unfolding raise
  raise-Makes e = record { run = λ s. no-Adds s.calls }

  pub current-Makes : Makes P current
  unfolding current
  current-Makes = record { run = λ s. no-Adds s.calls }

  pub put-Makes : (vm : VirtualMachine K) → Makes P (put vm)
  unfolding put
  put-Makes vm = record { run = λ s. no-Adds s.calls }

  pub call-Makes : (x : Call K) → P x → Makes P (call x)
  unfolding call
  call-Makes x h = record { run = λ s. record { new = x ∷ []; added = refl; each = (h, tt) } }

  pub if-Makes {ℓ} :
      {A : Type ℓ} (b : Bool) {m n : M K A} → Makes P m → Makes P n → Makes P (if b then m else n)
  if-Makes true h k = h
  if-Makes false h k = k

  pub when_do-Makes : (b : Bool) {m : M K (Unit {0})} → Makes P m → Makes P (when_do b m)
  unfolding when_do
  when_do-Makes true h = record { run = h.run }
  when_do-Makes false h = record { run = λ s. no-Adds s.calls }

  both-Adds {ℓ κ μ} :
      {A : Type ℓ} {B : Type κ} {Q : A → Type μ} (o : Outcome K A) (f : A → M K B)
      (before : List (Call K))
      → Holds Q o
      → Adds P before (final o).calls
      → ((a : A) → Q a → Makes P (f a))
      → Adds P before (final (and_then o f)).calls
  both-Adds (returned a s) f before q h k = chain-Adds h ((k a q).run s)
  both-Adds (raised e s) f before q h k = h

  -- The second part may rely on what the first one gives.
  pub bind_ensured-Makes {ℓ κ μ} :
      {A : Type ℓ} {B : Type κ} {Q : A → Type μ} {m : M K A} {f : A → M K B}
      → Ensures Q m
      → Makes P m
      → ((a : A) → Q a → Makes P (f a))
      → Makes P (m >>= f)
  unfolding ◌>>=◌
  bind_ensured-Makes {m = m} {f = f} q h k = record {
    run = λ s. both-Adds (m s) f s.calls (q.run s) (h.run s) k;
  }
