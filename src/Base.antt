-- ===== src/Base.antt =====
-- The names that every other module shares: the libraries', passed on, and those of the children
-- below. Texts are lists of bytes; `Run` is what a C++ call comes to.
mod Tests
mod Lists
mod Bytes
mod Decimal
mod Int
mod Calls
pub use Tests.*
pub use Lists.*
pub use Bytes.*
pub use Decimal.*
pub use Int.*
pub use Calls.*
unfoldable pub use Decimal.{to_string, stoi}
unfoldable pub use Int.{◌+ℤ◌, ◌-ℤ◌, ◌*ℤ◌}
pub use Prim.Native.Nat.{ℕ, zero, suc, ◌+◌, ◌-◌, ◌*◌, ◌/◌, ◌%◌, ◌^◌, ◌≤◌, ◌<◌}
pub use mathlib.Core.Path.{◌≡◌, refl, sym, ap, subst, ◌∙◌}
pub use mathlib.Core.Logic.{◌≢◌, ◌↔◌, ◌⊎◌, inl, inr}
pub use mathlib.Core.Bool.{Bool, true, false, not, ◌&&◌, ◌||◌}
pub use mathlib.Core.Option.{Option, none, some}
pub use mathlib.Core.List.{List, [], ◌∷◌, ◌++◌, map}
pub use native.Mathlib.Omega.{arith}
