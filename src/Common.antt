-- ===== src/Common.antt =====
-- What every module shares: library names passed on, Boolean tests, byte strings, lists measured
-- by native numbers, and the result type of Go functions that return an error.
mod Tests
mod Lists
mod Text
mod Outcome
mod Int
pub mod Sort
pub use Tests.*
pub use Lists.*
pub use Text.{
  ends_with-append, cut-append, append-trim_suffix, trim_prefix-append, trim_suffix-append,
  trim_suffix_none, Bytes, codes, bytes_eq_iff, bytes_eq_refl, bytes_eq_sym, bytes_eq_trans,
}
unfoldable pub use Text.{
  bytes_eq, starts_with, ends_with, trim_prefix, trim_suffix, cut, contains_byte,
}
pub use Outcome.*
pub use Int.{ℤ, pos, negsuc}
pub use Prim.Native.Nat.{ℕ, zero, suc, ◌+◌, ◌-◌, ◌*◌, ◌≤◌, ◌<◌}
pub use mathlib.Core.Path.{◌≡◌, refl, sym, ap, ◌∙◌}
pub use mathlib.Core.Logic.{◌≢◌, ◌↔◌, ◌⊎◌, inl, inr}
pub use mathlib.Core.Bool.{Bool, true, false, not, ◌&&◌, ◌||◌}
pub use mathlib.Core.Option.{Option, none, some}
pub use mathlib.Core.List.{List, [], ◌∷◌, ◌++◌, map}
pub use native.Mathlib.Omega.{arith}
