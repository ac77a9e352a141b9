-- ===== src/Admission.antt =====
-- Admission requests and responses (sigs.k8s.io/controller-runtime/pkg/webhook/admission). A request
-- carries the results of decoding its object and its old object; `none` is a decoding error.
use virtink.Prelude.{ℕ, Option, [], ◌∷◌, ◌≡◌, ◌↔◌, refl}
use virtink.Field.{ErrorList}

pub data Operation : Type 0 where
  create update other_operation : Operation

pub record Request {ℓ} (A : Type ℓ) : Type ℓ where
  pub operation : Operation
  pub object : Option A
  pub old_object : Option A

pub data Response : Type 0 where
  allowed : Response
  denied : ErrorList → Response
  errored : ℕ → Response

abbrev pub bad_request : ℕ
bad_request = 400

abbrev pub internal_server_error : ℕ
internal_server_error = 500

-- `if len(errs) > 0 { return Denied } ; return Allowed`
abbrev pub respond : ErrorList → Response
respond [] = allowed
respond (e ∷ es) = denied (e ∷ es)

pub respond-allowed_iff : (es : ErrorList) → (respond es ≡ allowed) ↔ (es ≡ [])
respond-allowed_iff [] = (λ _. refl, λ _. refl)
respond-allowed_iff (e ∷ es) = (λ h. cc, λ h. cc)
