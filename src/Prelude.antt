-- ===== src/Prelude.antt =====
-- The names that every module shares: the libraries', passed on, and those of the children.
mod Tests
mod Tables
mod Text
mod Trimmed
mod Int
pub use Tests.*
pub use Int.*
pub use Tables.{
  length, set_where, map_row, find-update, find-update_ne, exists-find, find_test, length-update,
  count-le-length, find-update_self, exists-update_all, exists-update_none, exists-update,
  update-none, set_where-none, set_where-keeps, find-delete_ne, exists-delete,
}
unfoldable pub use Tables.{find, exists, update, delete, count}
unfoldable pub use Text.{
  trim_space, strip_prefix, len, take_runes, rune_count, lower_is, fold_is, lower_contains,
}
pub use Trimmed.{every-trim_space, blank-trim_space}
unfoldable pub use Trimmed.{every, is_blank}
pub use Prim.Native.Nat.{ℕ, zero, suc, ◌+◌, ◌-◌, ◌*◌, ◌/◌, ◌^◌, ◌≤◌, ◌<◌, min, max}
pub use Prim.Native.String.{String}
pub use mathlib.Core.Path.{◌≡◌, refl, sym, ap, ◌∙◌, subst}
pub use mathlib.Core.Logic.{◌≢◌, ◌↔◌, ◌⊎◌, inl, inr}
pub use mathlib.Core.Bool.{Bool, true, false, not, ◌&&◌, ◌||◌}
pub use mathlib.Core.Option.{Option, none, some}
pub use mathlib.Core.List.{List, [], ◌∷◌, ◌++◌, map}
pub use native.Mathlib.Omega.{arith}
pub use text.Mathlib.Text.{◌==◌ as str_eq}
pub use text.Mathlib.TextEquality.{eq_iff as str_eq_iff}
pub use text.Mathlib.TextPositions.{eq_refl as str_eq_refl}
