-- ===== src/Common.antt =====
-- The names that the other modules share: the libraries', passed on, and those of the children.
mod Tests
mod Lists
mod Dicts
mod Sort
mod Paging
pub mod Text
unfoldable pub use Tests.*
unfoldable pub use Lists.*
unfoldable pub use Text.{
  is_space, is_digit, lstrip, rstrip, strip, lower, keep, is_prefix, contains, ends_with,
  rstrip_char, split_on, split_once, take_chars, digit_char, char_or, pad, decimal, truthy, or_else,
  opt_eq, elem,
}
pub use Text.{cons-ne-empty}
unfoldable pub use Sort.*
pub use Paging.{IsFirst, take-IsFirst}
unfoldable pub use Dicts.{Dict, get, put, put_all}
pub use Dicts.{get-put}
pub use Prim.Native.Nat.{ℕ, zero, suc, ◌+◌, ◌-◌, ◌*◌, ◌/◌, ◌%◌, ◌^◌, ◌≤◌, ◌<◌}
pub use Prim.Native.String.{String}
pub use mathlib.Core.Path.{◌≡◌, refl, sym, ap, ◌∙◌}
pub use mathlib.Core.Logic.{◌≢◌, ◌↔◌, ◌⊎◌, inl, inr}
pub use mathlib.Core.Bool.{Bool, true, false, not, ◌&&◌, ◌||◌}
pub use mathlib.Core.Option.{Option, none, some}
pub use mathlib.Core.List.{List, [], ◌∷◌, ◌++◌, map, append-nil, append_assoc, map-append}
pub use native.Mathlib.Omega.{arith}
pub use text.Mathlib.Text.{◌==◌}
pub use text.Mathlib.TextEquality.{eq_iff}
pub use text.Mathlib.TextPositions.{eq_refl}
