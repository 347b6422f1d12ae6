-- ===== src/Base.antt =====
-- The names that the models share: native numbers, library types passed on, tests, lists,
-- outcomes, memory reads, words, recursion on smaller numbers and decimal digits.
mod Tests
mod Lists
mod Results
mod Memory
mod Words
mod Descent
mod Decimal
pub use Tests.*
pub use Lists.*
pub use Results.*
unfoldable pub use Memory.*
unfoldable pub use Words.*
unfoldable pub use Descent.*
unfoldable pub use Decimal.*
pub use Prim.Native.Nat.{ℕ, zero, suc, ◌+◌, ◌-◌, ◌*◌, ◌/◌, ◌%◌, ◌^◌, ◌≤◌, ◌<◌}
pub use mathlib.Core.Path.{◌≡◌, refl, sym, ap, subst, ◌∙◌}
pub use mathlib.Core.Logic.{◌≢◌, ◌↔◌, ◌⊎◌, inl, inr}
pub use mathlib.Core.Bool.{Bool, true, false, not, ◌&&◌, ◌||◌}
pub use mathlib.Core.Option.{Option, none, some}
pub use mathlib.Core.List.{List, [], ◌∷◌, ◌++◌, map, append-nil, append_assoc}
pub use native.Mathlib.Omega.{arith}
