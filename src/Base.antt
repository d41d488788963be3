-- ===== src/Base.antt =====
-- The names that the other modules share: the libraries', passed on, and those of the children.
mod Tests
mod Lists
mod Slices
mod Word
mod BigEndian
mod Action
pub mod Fallible
mod Int
pub mod Text
mod Triples
pub mod Maps
pub use Tests.*
pub use Lists.*
unfoldable pub use Slices.*
pub use Word.*
unfoldable pub use BigEndian.*
unfoldable pub use Int.*
pub use Action.*
pub use Triples.*
pub use Prim.Native.Nat.{ℕ, zero, suc, ◌+◌, ◌-◌, ◌*◌, ◌/◌, ◌%◌, ◌^◌, ◌≤◌, ◌<◌, min}
pub use mathlib.Core.Path.{◌≡◌, refl, sym, ap, ◌∙◌}
pub use mathlib.Core.Logic.{◌≢◌, ◌↔◌, ◌⊎◌, inl, inr}
pub use mathlib.Core.Bool.{Bool, true, false, ◌&&◌, ◌||◌}
pub use mathlib.Core.Option.{Option, none, some}
pub use mathlib.Core.List.{List, [], ◌∷◌, ◌++◌, map, append-nil, append_assoc}
pub use native.Mathlib.Omega.{arith}
