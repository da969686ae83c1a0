-- ===== src/Float.antt =====
-- Floating point as a parameter: the operations (`Ops`), the laws that the theorems assume of them
-- (`Laws`), and two small number types that meet the laws, for the witnesses (`Fixed`, `Exact`).
mod Ops
mod Laws
mod Derived
pub mod Fixed
pub use Ops.*
pub use Laws.*
pub use Derived.*
