-- ===== src/Common.antt =====
-- The names that the modules of the development share: the libraries', passed on, and those of the
-- children: Boolean tests and results (Tests), lists over the native numbers (Lists), machine words
-- and their bytes (Words), byte strings as texts (Texts).
mod Tests
mod Lists
mod Words
mod Texts
pub use Tests.*
pub use Lists.*
unfoldable pub use Words.*
unfoldable pub use Texts.*
pub use Prim.Native.Nat.{
  ℕ, zero, suc, ◌+◌, ◌-◌, ◌*◌, ◌/◌, ◌%◌, ◌^◌, ◌≤◌, ◌<◌, bit_and, bit_or, min, max,
}
pub use mathlib.Core.Path.{◌≡◌, refl, sym, ap, ◌∙◌, subst}
pub use mathlib.Core.Logic.{◌≢◌, ◌↔◌, ◌⊎◌, inl, inr}
pub use mathlib.Core.Bool.{Bool, true, false, ◌&&◌, ◌||◌, not}
pub use mathlib.Core.Option.{Option, none, some, some-injective}
pub use mathlib.Core.List.{List, [], ◌∷◌, ◌++◌, map, append-nil, append_assoc}
pub use native.Mathlib.Omega.{arith}
