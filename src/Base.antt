-- ===== src/Base.antt =====
-- The names that the other modules share: the libraries', passed on, and those of the children
-- (Boolean tests, lists over the native numbers, Go strings as lists of code points, Go maps with
-- string keys as association lists, calls that may fail).
mod Tests
mod Lists
mod Strings
mod Maps
mod Fail
pub mod Decimal
pub mod Retry
pub use Tests.*
pub use Lists.*
pub use Strings.{
  Text, codes, lower, eq_fold, eq_text_iff, eq_text_refl, eq_text-sym, starts_with, ends_with,
  split, split_from, join, trim,
}
unfoldable pub use Strings.{◌==◌, lower_code, is_space, trim_space}
pub use Maps.{Dict, lookup-set_key, lookup-erase}
unfoldable pub use Maps.{lookup, set_key, erase}
pub use Fail.*
pub use Prim.Native.Nat.{ℕ, zero, suc, ◌+◌, ◌-◌, ◌*◌, ◌/◌, ◌%◌, ◌^◌, ◌≤◌, ◌<◌}
pub use mathlib.Core.Path.{◌≡◌, refl, sym, ap, ◌∙◌, subst, fun_ext}
pub use mathlib.Core.Logic.{◌≢◌, ◌↔◌, ◌⊎◌, inl, inr}
pub use mathlib.Core.Bool.{Bool, true, false, not, ◌&&◌, ◌||◌}
pub use mathlib.Core.Option.{Option, none, some}
pub use mathlib.Core.List.{List, [], ◌∷◌, ◌++◌, map, reverse}
pub use native.Mathlib.Omega.{arith}
