-- ===== src/Shared.antt =====
-- What the models share: the libraries' names, passed on, and JavaScript's values as the front
-- end (frontend/src) uses them: tests, arrays, text, objects, maps and sets.
mod Tests
mod Lists
mod Strings
pub mod Split
pub mod Sort
pub mod Distinct
pub mod Assoc
pub mod Members
pub mod Numbers
pub use Tests.*
unfoldable pub use Lists.*
unfoldable pub use Strings.*
pub use Prim.Native.Nat.{ℕ, zero, suc, ◌+◌, ◌-◌, ◌*◌, ◌/◌, ◌%◌, ◌≤◌, ◌<◌}
pub use Prim.Native.String.{String}
pub use mathlib.Core.Path.{◌≡◌, refl, sym, ap, ap₂, ◌∙◌, subst}
pub use mathlib.Core.Logic.{◌≢◌, ◌↔◌, ◌⊎◌, inl, inr}
pub use mathlib.Core.Bool.{Bool, true, false, not, ◌&&◌, ◌||◌}
pub use mathlib.Core.Option.{Option, none, some}
pub use mathlib.Core.List.{List, [], ◌∷◌, ◌++◌, map, append-nil, append_assoc}
pub use native.Mathlib.Omega.{arith}
