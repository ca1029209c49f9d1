-- ===== src/Base.antt =====
-- The names that every other file shares: the libraries' and those of eight children. The children
-- model what the contracts use of JavaScript: numbers, strings, `Map`, `Set` and exceptions.
mod Tests
mod Int
mod Text
mod Tables
mod Calls
mod Numbered
mod Member
pub mod Keeps
pub use Tests.*
pub use Member.*
unfoldable pub use Int.*
unfoldable pub use Text.*
unfoldable pub use Tables.*
unfoldable pub use Numbered.*
pub use Calls.*
pub use Prim.Native.Nat.{ℕ, zero, suc, ◌+◌, ◌-◌, ◌*◌, ◌/◌, ◌%◌, ◌≤◌, ◌<◌}
pub use Prim.Native.String.{String}
pub use mathlib.Core.Path.{◌≡◌, refl, sym, ap, ◌∙◌}
pub use mathlib.Core.Logic.{◌≢◌, ◌↔◌, ◌⊎◌, inl, inr}
pub use mathlib.Core.Bool.{Bool, true, false, not, ◌&&◌, ◌||◌}
pub use mathlib.Core.Option.{Option, none, some}
pub use mathlib.Core.List.{List, [], ◌∷◌, ◌++◌, map}
pub use native.Mathlib.Omega.{arith}
pub use text.Mathlib.TextEquality.{eq_iff}
