-- ===== src/Prelude.antt =====
-- Names that every other module shares: the libraries' and those of the children.
mod Tests
mod Lists
mod Slots
mod Outcomes
mod Keys
mod Occurs
pub mod Modular
pub mod Totals
pub mod Maps
pub use Tests.*
pub use Lists.*
pub use Slots.*
pub use Outcomes.*
pub use Keys.*
pub use Occurs.*
pub use Prim.Native.Nat.{ℕ, zero, suc, ◌+◌, ◌-◌, ◌*◌, ◌/◌, ◌%◌, ◌^◌, ◌≤◌, ◌<◌}
pub use mathlib.Core.Path.{◌≡◌, refl, sym, ap, ◌∙◌, subst}
pub use mathlib.Core.Logic.{◌≢◌, ◌↔◌, ◌⊎◌, inl, inr}
pub use mathlib.Core.Bool.{Bool, true, false, not, ◌&&◌, ◌||◌}
pub use mathlib.Core.Option.{Option, none, some}
pub use mathlib.Core.List.{List, [], ◌∷◌, ◌++◌, map}
pub use native.Mathlib.Omega.{arith}
