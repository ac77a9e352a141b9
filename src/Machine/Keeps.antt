-- ===== src/Machine/Keeps.antt =====
-- Code that keeps a part of the machine in memory: the part that a function `f` reads.
use virtink.Prelude.{if◌then◌else◌, Bool, true, false, ◌≡◌, refl, ap, ◌∙◌}
use virtink.Api.{Kube, VirtualMachine}
use virtink.Machine.Monad.{
  State, Outcome, returned, raised, M, and_then, ◌>>=◌, ◌>>◌, final, current, put, when_do,
}
use virtink.Machine.Reads.{Reads}

pub record Keeps {ℓ κ} {K : Kube} {X : Type κ} (f : VirtualMachine K → X) {A : Type ℓ} (m : M K A)
    : Type (ℓ ⊔ κ) where
  pub run : (s : State K) → f ((final (m s)).vm) ≡ f (s.vm)

module _ {κ} {K : Kube} {X : Type κ} (f : VirtualMachine K → X) where
  and_then-Keeps {ℓ λ'} :
      {A : Type ℓ} {B : Type λ'} (o : Outcome K A) (k : A → M K B) (x : X)
      → f ((final o).vm) ≡ x
      → ((a : A) → Keeps f (k a))
      → f ((final (and_then o k)).vm) ≡ x
  and_then-Keeps (returned a s) k x h g = (g a).run s ∙ h
  and_then-Keeps (raised e s) k x h g = h

  pub bind-Keeps {ℓ λ'} :
      {A : Type ℓ} {B : Type λ'} {m : M K A} {k : A → M K B}
      → Keeps f m
      → ((a : A) → Keeps f (k a))
      → Keeps f (m >>= k)
  unfolding ◌>>=◌
  bind-Keeps {m = m} {k = k} h g = record {
    run = λ s. and_then-Keeps (m s) k (f (s.vm)) (h.run s) g;
  }

  pub then-Keeps {ℓ} :
      {B : Type ℓ} {m : M K (Unit {0})} {k : M K B} → Keeps f m → Keeps f k → Keeps f (m >> k)
  unfolding ◌>>◌
  then-Keeps h k = bind-Keeps h (λ _. k)

  pub Reads-Keeps {ℓ} : {A : Type ℓ} {m : M K A} → Reads m → Keeps f m
  Reads-Keeps h = record { run = λ s. ap f (h.run s) }

  pub if-Keeps {ℓ} :
      {A : Type ℓ} (b : Bool) {m n : M K A} → Keeps f m → Keeps f n → Keeps f (if b then m else n)
  if-Keeps true h k = h
  if-Keeps false h k = k

  pub when_do-Keeps : (b : Bool) {m : M K (Unit {0})} → Keeps f m → Keeps f (when_do b m)
  unfolding when_do
  when_do-Keeps true h = record { run = h.run }
  when_do-Keeps false h = record { run = λ s. refl }

  -- The machine is read and then handled by code that keeps the part if it starts with that machine.
  pub current-Keeps {ℓ} :
      {A : Type ℓ} (k : VirtualMachine K → M K A)
      → ((s : State K) → f ((final (k (s.vm) s)).vm) ≡ f (s.vm))
      → Keeps f (current >>= k)
  unfolding ◌>>=◌ current
  current-Keeps k h = record { run = h }

  pub put_same :
      (vm : VirtualMachine K) (s : State K) → f vm ≡ f (s.vm) → f ((final (put vm s)).vm) ≡ f (s.vm)
  unfolding put
  put_same vm s h = h
