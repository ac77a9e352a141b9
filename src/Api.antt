-- ===== src/Api.antt =====
-- The API objects of pkg/apis/virt/v1alpha1/types.go, passed on from the modules below.
mod External
mod Enums
mod Spec
mod Objects
mod Pods
pub use External.*
pub use Enums.*
unfoldable pub use Spec.*
pub use Objects.*
pub use Pods.*
