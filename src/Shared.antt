-- ===== src/Shared.antt =====
-- The names that every module shares: the libraries', passed on, and those of the children.
mod Checks
mod Lists
mod Fresh
mod Raising
mod Codes
mod Trimmed
mod Ordered
pub use Checks.*
pub use Lists.*
pub use Fresh.*
pub use Raising.*
pub use Codes.*
pub use Trimmed.*
pub use Ordered.*
unfoldable pub use Codes.{lower, before, ends_with, split, join}
unfoldable pub use Trimmed.{starts_with, is_space, lstrip, rstrip, strip, upper, remove_prefix}
pub use Prim.Native.Nat.{ℕ, zero, suc, ◌+◌, ◌-◌, ◌*◌, ◌/◌, ◌%◌, ◌≤◌, ◌<◌}
pub use Prim.Native.String.{String}
pub use mathlib.Core.Path.{◌≡◌, refl, sym, ap, ◌∙◌}
pub use mathlib.Core.Logic.{◌≢◌, ◌↔◌, ◌⊎◌, inl, inr}
pub use mathlib.Core.Bool.{Bool, true, false, not, ◌&&◌, ◌||◌}
pub use mathlib.Core.Option.{Option, none, some}
pub use mathlib.Core.List.{List, [], ◌∷◌, ◌++◌, map, Memᴰ}
pub use native.Mathlib.Omega.{arith}
