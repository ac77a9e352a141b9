-- ===== src/Field.antt =====
-- Field paths and validation errors (k8s.io/apimachinery/pkg/util/validation/field) as data: an
-- error is its type and its path; the offending value and the message text are left out.
use virtink.Prelude.{ℕ, Bool, String, arith, if◌then◌else◌, List, [], ◌∷◌, ◌≡◌, ◌↔◌, false}

pub data Segment : Type 0 where
  child : String → Segment
  index : ℕ → Segment
  key : String → Segment

-- A path, its innermost segment first.
abbrev pub FieldPath : Type 0
FieldPath = List Segment

pub data ErrorType : Type 0 where
  required invalid duplicate forbidden not_found internal : ErrorType

pub record FieldError : Type 0 where
  pub error_type : ErrorType
  pub path : FieldPath

abbrev pub ErrorList : Type 0
ErrorList = List FieldError

-- `if test { errs = append(errs, e) }`
abbrev pub when : Bool → FieldError → ErrorList
when test e = if test then e ∷ [] else []

pub when-eq-nil : (test : Bool) (e : FieldError) → (when test e ≡ []) ↔ (test ≡ false)
when-eq-nil test e = ground arith
