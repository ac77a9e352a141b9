-- ===== src/Machine/Reads.antt =====
-- Code that makes calls and leaves the machine in memory as it is.
use virtink.Prelude.{if◌then◌else◌, Bool, true, false, ◌≡◌, refl, ◌∙◌}
use virtink.Api.{Kube, VirtualMachine}
use virtink.Machine.Monad.{
  State, Outcome, returned, raised, M, and_then, ◌>>=◌, ◌>>◌, final, Call, call, current, pure,
  raise, when_do, Error,
}

pub record Reads {ℓ} {K : Kube} {A : Type ℓ} (m : M K A) : Type ℓ where
  pub run : (s : State K) → (final (m s)).vm ≡ s.vm

module _ {ℓ κ} {K : Kube} {A : Type ℓ} {B : Type κ} where
  and_then-Reads :
      (o : Outcome K A) (f : A → M K B) (vm : VirtualMachine K)
      → (final o).vm ≡ vm
      → ((a : A) → Reads (f a))
      → (final (and_then o f)).vm ≡ vm
  and_then-Reads (returned a s) f vm h k = (k a).run s ∙ h
  and_then-Reads (raised e s) f vm h k = h

  pub bind-Reads : {m : M K A} {f : A → M K B} → Reads m → ((a : A) → Reads (f a)) → Reads (m >>= f)
  unfolding ◌>>=◌
  bind-Reads {m} {f} h k = record { run = λ s. and_then-Reads (m s) f s.vm (h.run s) k }

module _ {ℓ} {K : Kube} {A : Type ℓ} where
  pub pure-Reads : (a : A) → Reads {K = K} (pure a)
  unfolding pure
  pure-Reads a = record { run = λ s. refl }

  pub raise-Reads : (e : Error) → Reads {K = K} {A = A} (raise e)
  unfolding raise
  raise-Reads e = record { run = λ s. refl }

  pub if-Reads : (b : Bool) {m n : M K A} → Reads m → Reads n → Reads (if b then m else n)
  if-Reads true h k = h
  if-Reads false h k = k

module _ {K : Kube} where
  pub then-Reads {ℓ} :
      {B : Type ℓ} {m : M K (Unit {0})} {k : M K B} → Reads m → Reads k → Reads (m >> k)
  unfolding ◌>>◌
  then-Reads h k = bind-Reads h (λ _. k)

  pub call-Reads : (c : Call K) → Reads (call c)
  unfolding call
  call-Reads c = record { run = λ s. refl }

  pub current-Reads : Reads {K = K} current
  unfolding current
  current-Reads = record { run = λ s. refl }

  pub when_do-Reads : (b : Bool) {m : M K (Unit {0})} → Reads m → Reads (when_do b m)
  unfolding when_do
  when_do-Reads true h = record { run = h.run }
  when_do-Reads false h = record { run = λ s. refl }

  pub ruleset reads = (
    bind-Reads, then-Reads, if-Reads, pure-Reads, raise-Reads, call-Reads, current-Reads,
    when_do-Reads,
  )
