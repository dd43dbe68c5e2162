-- ===== src/Prelude.antt =====
-- The names that the other modules share.
pub mod Tests
pub mod Result
pub mod Lists
pub mod Dict
pub mod Texts
pub mod Strip
pub mod Regex
pub mod Int
pub mod Sort
pub mod Search
pub use Tests.*
pub use Lists.*
unfoldable pub use Texts.*
unfoldable pub use Strip.{is_space, strip}
pub use Strip.{strip-strip, length-strip}
pub use Prim.Native.Nat.{ℕ, zero, suc, ◌+◌, ◌-◌, ◌*◌, ◌/◌, ◌%◌, ◌^◌, ◌≤◌, ◌<◌, min, max}
pub use mathlib.Core.Path.{◌≡◌, refl, sym, ap, ap₂, ◌∙◌, subst, subst₂}
pub use mathlib.Core.Logic.{◌≢◌, ◌↔◌, ◌⊎◌, inl, inr}
pub use mathlib.Core.Bool.{Bool, true, false, not, ◌&&◌, ◌||◌}
pub use mathlib.Core.Option.{Option, none, some}
pub use mathlib.Core.List.{List, [], ◌∷◌, ◌++◌, map, append_assoc, append-nil}
pub use native.Mathlib.Omega.{arith}
