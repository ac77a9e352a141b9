-- ===== src/Client.antt =====
-- What a call to the API server gives back (sigs.k8s.io/controller-runtime/pkg/client), and what a
-- reconciler hands to its work queue.
use virtink.Prelude.{ℕ, String, ◌≡◌, refl, ◌⊎◌, inl, inr}

pub data GetResult {ℓ} (A : Type ℓ) : Type ℓ where
  found : A → GetResult A
  not_found : GetResult A
  failed : String → GetResult A

-- The error of an update: a conflict of resource versions, or another.
pub data UpdateError : Type 0 where
  conflict : UpdateError
  other : String → UpdateError

-- `ctrl.Result` with its error; a delay is in seconds.
pub data ReconcileResult : Type 0 where
  done : ReconcileResult
  requeue : ReconcileResult
  requeue_after : ℕ → ReconcileResult
  error : String → ReconcileResult

pub GetResult-cases {ℓ} :
    {A : Type ℓ} (r : GetResult A)
    → ((a : A) × (r ≡ found a)) ⊎ ((r ≡ not_found) ⊎ ((e : String) × (r ≡ failed e)))
GetResult-cases (found a) = inl (a, refl)
GetResult-cases not_found = inr (inl refl)
GetResult-cases (failed e) = inr (inr (e, refl))
