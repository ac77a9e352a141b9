-- ===== src/Machine/Leads.antt =====
-- Code that takes a part of the machine in memory from one value to another one: what a function `f` reads
-- is related by `R` before and after, also after an error. `R` relates a value to itself.
use virtink.Prelude.{Bool, true, false, if◌then◌else◌, ◌≡◌, sym, subst, ◌∙◌}
use virtink.Api.{Kube, VirtualMachine}
use virtink.Machine.Monad.{
  State, Outcome, returned, raised, M, and_then, ◌>>=◌, ◌>>◌, final, current, put, when_do,
}
use virtink.Machine.Keeps.{Keeps}

pub record Leads {ℓ κ μ} {K : Kube} {X : Type κ} (f : VirtualMachine K → X) (R : X → X → Type μ)
    {A : Type ℓ} (m : M K A) : Type (ℓ ⊔ κ ⊔ μ) where
  pub run : (s : State K) → R (f (s.vm)) (f ((final (m s)).vm))

module _ {κ μ} {K : Kube} {X : Type κ} (f : VirtualMachine K → X) (R : X → X → Type μ)
    (same : (x : X) → R x x) where
  pub Keeps-Leads {ℓ} : {A : Type ℓ} {m : M K A} → Keeps f m → Leads f R m
  Keeps-Leads {m = m} h = record {
    run = λ s. subst (λ y. R (f (s.vm)) y) (sym (h.run s)) (same (f (s.vm)));
  }

  first_part-Leads {ℓ ν} :
      {A : Type ℓ} {B : Type ν} (o : Outcome K A) (k : A → M K B) (x : X)
      → f ((final o).vm) ≡ x
      → ((a : A) → Leads f R (k a))
      → R x (f ((final (and_then o k)).vm))
  first_part-Leads (returned a s) k x h g =
      subst (λ y. R y (f ((final (k a s)).vm))) h ((g a).run s)
  first_part-Leads (raised e s) k x h g = subst (λ y. R x y) (sym h) (same x)

  -- The first part keeps the value.
  pub later-Leads {ℓ ν} :
      {A : Type ℓ} {B : Type ν} {m : M K A} {k : A → M K B}
      → Keeps f m
      → ((a : A) → Leads f R (k a))
      → Leads f R (m >>= k)
  unfolding ◌>>=◌
  later-Leads {m = m} {k = k} h g = record {
    run = λ s. first_part-Leads (m s) k (f (s.vm)) (h.run s) g;
  }

  pub later_then-Leads {ℓ} :
      {B : Type ℓ} {m : M K (Unit {0})} {k : M K B} → Keeps f m → Leads f R k → Leads f R (m >> k)
  unfolding ◌>>◌
  later_then-Leads h g = later-Leads h (λ _. g)

  second_part-Leads {ℓ ν} :
      {A : Type ℓ} {B : Type ν} (o : Outcome K A) (k : A → M K B) (x : X)
      → R x (f ((final o).vm))
      → ((a : A) → Keeps f (k a))
      → R x (f ((final (and_then o k)).vm))
  second_part-Leads (returned a s) k x h g = subst (λ y. R x y) (sym ((g a).run s)) h
  second_part-Leads (raised e s) k x h g = h

  -- The second part keeps the value.
  pub first-Leads {ℓ ν} :
      {A : Type ℓ} {B : Type ν} {m : M K A} {k : A → M K B}
      → Leads f R m
      → ((a : A) → Keeps f (k a))
      → Leads f R (m >>= k)
  unfolding ◌>>=◌
  first-Leads {m = m} {k = k} h g = record {
    run = λ s. second_part-Leads (m s) k (f (s.vm)) (h.run s) g;
  }

  pub first_then-Leads {ℓ} :
      {B : Type ℓ} {m : M K (Unit {0})} {k : M K B} → Leads f R m → Keeps f k → Leads f R (m >> k)
  unfolding ◌>>◌
  first_then-Leads h g = first-Leads h (λ _. g)

  pub if-Leads {ℓ} :
      {A : Type ℓ} (b : Bool) {m n : M K A}
      → Leads f R m
      → Leads f R n
      → Leads f R (if b then m else n)
  if-Leads true h k = h
  if-Leads false h k = k

  pub when_do-Leads : (b : Bool) {m : M K (Unit {0})} → Leads f R m → Leads f R (when_do b m)
  unfolding when_do
  when_do-Leads true h = record { run = h.run }
  when_do-Leads false h = record { run = λ s. same (f (s.vm)) }

  -- A change of the machine in memory.
  pub change-Leads :
      (g : VirtualMachine K → VirtualMachine K)
      → ((vm : VirtualMachine K) → R (f vm) (f (g vm)))
      → Leads f R (current >>= λ vm. put (g vm))
  unfolding ◌>>=◌ current put
  change-Leads g h = record { run = λ s. h (s.vm) }

  -- The machine is read first: the rest starts with that machine.
  pub current-Leads {ℓ} :
      {A : Type ℓ} (k : VirtualMachine K → M K A)
      → ((s : State K) → R (f (s.vm)) (f ((final (k (s.vm) s)).vm)))
      → Leads f R (current >>= k)
  unfolding ◌>>=◌ current
  current-Leads k h = record { run = h }

module _ {κ} {K : Kube} {X : Type κ} (f : VirtualMachine K → X) where
  pub Leads-Keeps {ℓ} : {A : Type ℓ} {m : M K A} → Leads f (λ x y. y ≡ x) m → Keeps f m
  Leads-Keeps h = record { run = h.run }

  pub change-Keeps :
      (g : VirtualMachine K → VirtualMachine K)
      → ((vm : VirtualMachine K) → f (g vm) ≡ f vm)
      → Keeps f (current >>= λ vm. put (g vm))
  unfolding ◌>>=◌ current put
  change-Keeps g h = record { run = λ s. h (s.vm) }

  -- A change before code that keeps the value.
  pub change_then-Keeps {ℓ} :
      {A : Type ℓ} (g : VirtualMachine K → VirtualMachine K) (k : VirtualMachine K → M K A)
      → ((vm : VirtualMachine K) → f (g vm) ≡ f vm)
      → ((vm : VirtualMachine K) → Keeps f (k vm))
      → Keeps f (current >>= λ vm. put (g vm) >> k vm)
  unfolding ◌>>=◌ ◌>>◌ current put
  change_then-Keeps g k h n = record { run = λ s. (n (s.vm)).run _ ∙ h (s.vm) }

module _ {κ μ} {K : Kube} {X : Type κ} (f : VirtualMachine K → X) (R : X → X → Type μ) where
  -- A change, and then code that keeps the value.
  pub change_then-Leads {ℓ} :
      {A : Type ℓ} (g : VirtualMachine K → VirtualMachine K) (k : VirtualMachine K → M K A)
      → ((vm : VirtualMachine K) → R (f vm) (f (g vm)))
      → ((vm : VirtualMachine K) → Keeps f (k vm))
      → Leads f R (current >>= λ vm. put (g vm) >> k vm)
  unfolding ◌>>=◌ ◌>>◌ current put
  change_then-Leads g k h n = record {
    run = λ s. subst (λ y. R (f (s.vm)) y) (sym ((n (s.vm)).run _)) (h (s.vm));
  }

  -- A change that keeps the value, and then other code.
  pub prepare-Leads {ℓ} :
      {A : Type ℓ} (g : VirtualMachine K → VirtualMachine K) (k : VirtualMachine K → M K A)
      → ((vm : VirtualMachine K) → f (g vm) ≡ f vm)
      → ((vm : VirtualMachine K) → Leads f R (k vm))
      → Leads f R (current >>= λ vm. put (g vm) >> k vm)
  unfolding ◌>>=◌ ◌>>◌ current put
  prepare-Leads g k h n = record {
    run = λ s.
        subst (λ x. R x (f ((final (k (s.vm) (record s { vm = g (s.vm) }))).vm))) (h (s.vm))
          ((n (s.vm)).run _);
  }

  pub weaken-Leads {ℓ ν} :
      {S : X → X → Type ν} {A : Type ℓ} {m : M K A}
      → ((x y : X) → R x y → S x y)
      → Leads f R m
      → Leads f S m
  weaken-Leads h l = record { run = λ s. h _ _ (l.run s) }

-- One part after the other, for a relation that composes.
module _ {κ μ} {K : Kube} {X : Type κ} (f : VirtualMachine K → X) (R : X → X → Type μ)
    (chain : (x y z : X) → R x y → R y z → R x z) where
  two_parts-Leads {ℓ ν} :
      {A : Type ℓ} {B : Type ν} (o : Outcome K A) (k : A → M K B) (x : X)
      → R x (f ((final o).vm))
      → ((a : A) → Leads f R (k a))
      → R x (f ((final (and_then o k)).vm))
  two_parts-Leads (returned a s) k x h g = chain x _ _ h ((g a).run s)
  two_parts-Leads (raised e s) k x h g = h

  pub both-Leads {ℓ ν} :
      {A : Type ℓ} {B : Type ν} {m : M K A} {k : A → M K B}
      → Leads f R m
      → ((a : A) → Leads f R (k a))
      → Leads f R (m >>= k)
  unfolding ◌>>=◌
  both-Leads {m = m} {k = k} h g = record {
    run = λ s. two_parts-Leads (m s) k (f (s.vm)) (h.run s) g;
  }

  pub both_then-Leads {ℓ} :
      {B : Type ℓ} {m : M K (Unit {0})} {k : M K B} → Leads f R m → Leads f R k → Leads f R (m >> k)
  unfolding ◌>>◌
  both_then-Leads h g = both-Leads h (λ _. g)
