-- ===== src/Common.antt =====
-- The names that every module shares: those of the libraries, and of the children below.
mod Tests
mod Lists
mod Keys
mod Methods
mod Pairs
mod Sessions
pub mod Int
pub mod Text
pub mod Lines
pub mod TextSet
pub mod Float
pub mod Fixed
pub use Tests.*
unfoldable pub use Lists.*
pub use Keys.*
pub use Methods.*
pub use Pairs.*
pub use Sessions.*
pub use Prim.Native.Nat.{ℕ, zero, suc, ◌+◌, ◌-◌, ◌*◌, ◌/◌, ◌%◌, ◌^◌, ◌≤◌, ◌<◌}
pub use mathlib.Core.Path.{◌≡◌, refl, sym, ap, ◌∙◌}
pub use mathlib.Core.Logic.{◌≢◌, ◌↔◌, ◌⊎◌, inl, inr}
pub use mathlib.Core.Bool.{Bool, true, false, not, ◌&&◌, ◌||◌}
pub use mathlib.Core.Option.{Option, none, some}
pub use mathlib.Core.List.{List, [], ◌∷◌, ◌++◌, map}
pub use native.Mathlib.Omega.{arith}
