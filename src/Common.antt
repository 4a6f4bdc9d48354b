-- ===== src/Common.antt =====
-- The names that the models share: the libraries' names, Boolean tests, lists, signed integers,
-- keys with a Boolean equality, association maps, and programs with state and errors.
pub mod Tests
pub mod Lists
pub mod Keys
pub mod Maps
pub mod Programs
pub mod Clock
pub use Tests.*
pub use Lists.*
pub use Keys.*
unfoldable pub use Maps.*
pub use Programs.*
unfoldable pub use Clock.*
pub use Prim.Native.Nat.{ℕ, zero, suc, ◌+◌, ◌-◌, ◌*◌, ◌/◌, ◌%◌, ◌^◌, ◌≤◌, ◌<◌}
pub use Prim.Native.String.{String}
pub use mathlib.Core.Path.{◌≡◌, refl, sym, ap, ◌∙◌, fun_ext}
pub use mathlib.Core.Logic.{◌≢◌, ◌↔◌, ◌⊎◌, inl, inr}
pub use mathlib.Core.Bool.{Bool, true, false, not, ◌&&◌, ◌||◌}
pub use mathlib.Core.Option.{Option, none, some}
pub use mathlib.Core.List.{List, [], ◌∷◌, ◌++◌, map, append_assoc, append-nil}
pub use native.Mathlib.Omega.{arith}
