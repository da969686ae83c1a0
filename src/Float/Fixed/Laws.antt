-- ===== src/Float/Fixed/Laws.antt =====
-- Fixed point has the laws that the theorems assume.
mod Order
mod Search
mod Group
mod Rounding
mod Signs
pub use Order.{Fixed-IsOrdered}
pub use Search.{Fixed-IsNumpy}
pub use Group.{Fixed-IsExact}
pub use Rounding.{Fixed-IsRounded, Fixed-IsMidpoint, Fixed-IsSubtraction}
pub use Signs.{Fixed-IsSigned}
