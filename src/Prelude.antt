-- ===== src/Prelude.antt =====
-- Shared names: those of the libraries, passed on, and those of the children: Boolean tests, lists
-- over the native numbers, `std::expected` and exceptions, and `std::unordered_map`.
mod Tests
mod Lists
mod Results
mod Loops
pub mod UnorderedMap
pub mod Int
pub mod Defined
pub use Tests.*
pub use Lists.*
unfoldable pub use Loops.*
pub use Results.*
pub use Prim.Native.Nat.{ℕ, zero, suc, ◌+◌, ◌-◌, ◌*◌, ◌/◌, ◌%◌, ◌^◌, ◌≤◌, ◌<◌, min}
pub use Prim.Native.String.{String}
pub use mathlib.Core.Path.{◌≡◌, refl, sym, ap, ◌∙◌, subst}
pub use mathlib.Core.Logic.{◌≢◌, ◌↔◌, ◌⊎◌, inl, inr}
pub use mathlib.Core.Bool.{Bool, true, false, not, ◌&&◌, ◌||◌}
pub use mathlib.Core.Option.{Option, none, some}
pub use mathlib.Core.List.{List, [], ◌∷◌, ◌++◌, map}
pub use native.Mathlib.Omega.{arith}

-- The greatest `std::size_t` and the greatest `Eigen::Index`, on a 64-bit target.
abbrev pub size_max : ℕ
size_max = 2 ^ 64 - 1

abbrev pub index_max : ℕ
index_max = 2 ^ 63 - 1

-- include/tpc/core/definitions/analytics_definitions.hpp
abbrev pub dimension : ℕ
dimension = 3
