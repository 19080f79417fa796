-- ===== src/Base.antt =====
-- The names that the other modules share: library names passed on, Boolean tests, lists, texts
-- and results.
mod Tests
mod Lists
mod Texts
mod Results
mod Dicts
mod Ints
mod Sorting
pub use Tests.*
pub use Lists.*
pub use Texts.*
pub use Results.*
pub use Dicts.*
unfoldable pub use Ints.*
unfoldable pub use Sorting.*
pub use Prim.Native.Nat.{ℕ, zero, suc, ◌+◌, ◌-◌, ◌*◌, ◌/◌, ◌%◌, ◌^◌, ◌≤◌, ◌<◌}
pub use mathlib.Core.Path.{◌≡◌, refl, sym, ap, ◌∙◌, subst}
pub use mathlib.Core.Logic.{◌≢◌, ◌↔◌, ◌⊎◌, inl, inr}
pub use mathlib.Core.Bool.{Bool, true, false, ◌&&◌, ◌||◌, not}
pub use mathlib.Core.Option.{Option, none, some}
pub use mathlib.Core.List.{List, [], ◌∷◌, ◌++◌, map, append-nil, append_assoc}
pub use native.Mathlib.Omega.{arith}
