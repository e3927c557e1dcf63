-- ===== src/Prelude.antt =====
-- Names that the other modules share: the libraries' names passed on, Boolean tests, lists and
-- integers over the native numbers.
mod Tests
mod Lists
mod Int
mod Growth
pub use Tests.*
pub use Lists.{
  All, length, take, length-append, length-take, length-update_rows, first_row-matches,
  count_rows-append, All-append, All-update_rows, All-first_row, first_row-update_rows,
  first_row-update_rows-none, first_row-update_if, first_row-update_rows_other,
  first_row-append_none, take_all, All-update_rows_to, All-both, All-map, count_rows-one,
  first_row-head, count_rows-none, count_rows-some,
}
unfoldable pub use Lists.{where_rows, first_row, update_rows, count_rows, last_or}
pub use Int.{
  ℤ, pos, negsuc, pos_part, neg_part, sub_ℕ, ◌≤ℤ◌, ltb_ℤ, leb_ℤ, eq_ℤ, +ℤ_parts, -ℤ_parts,
  eq_of_parts, int_laws,
}
unfoldable pub use Int.{◌+ℤ◌, ◌-ℤ◌, ◌*ℤ◌}
pub use Growth.{
  Extends, IsPreorder, Extends-refl, Extends-trans, Extends-append, Extends-update_rows,
}
pub use Prim.Native.Nat.{ℕ, zero, suc, ◌+◌, ◌-◌, ◌*◌, ◌/◌, ◌%◌, ◌^◌, ◌≤◌, ◌<◌, min, max}
pub use Prim.Native.String.{String}
pub use mathlib.Core.Path.{◌≡◌, refl, sym, ap, ◌∙◌, fun_ext}
pub use mathlib.Core.Logic.{◌≢◌, ◌↔◌, ◌⊎◌, inl, inr}
pub use mathlib.Core.Bool.{Bool, true, false, not, ◌&&◌, ◌||◌}
pub use mathlib.Core.Option.{Option, none, some}
pub use mathlib.Core.List.{List, [], ◌∷◌, ◌++◌, map, append_assoc, append-nil}
pub use native.Mathlib.Omega.{arith}
pub use text.Mathlib.TextEquality.{eq_iff}
