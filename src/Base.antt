-- ===== src/Base.antt =====
-- What the modules of the development share: the libraries' names, passed on, and those of the
-- modules below (tests and lists over the native numbers, byte texts, results, actions, maps).
mod Tests
mod Lists
mod Bytes
mod Fallible
pub mod Int
pub mod Action
pub mod Dict
pub mod Sled
pub mod Order
pub use Tests.*
pub use Lists.*
unfoldable pub use Bytes.*
pub use Fallible.*
pub use Prim.Native.Nat.{ℕ, zero, suc, ◌+◌, ◌-◌, ◌*◌, ◌/◌, ◌%◌, ◌^◌, ◌≤◌, ◌<◌, min}
pub use Prim.Native.String.{String}
pub use mathlib.Core.Path.{◌≡◌, refl, sym, ap, subst, ◌∙◌}
pub use mathlib.Core.Logic.{◌≢◌, ◌↔◌, ◌⊎◌, inl, inr}
pub use mathlib.Core.Bool.{Bool, true, false, not, ◌&&◌, ◌||◌}
pub use mathlib.Core.Option.{Option, none, some}
pub use mathlib.Core.List.{List, [], ◌∷◌, ◌++◌, map, append-nil, append_assoc, map-append}
pub use native.Mathlib.Omega.{arith}
