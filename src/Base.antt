-- ===== src/Base.antt =====
-- What the components share: the libraries' names, tests on numbers and texts, Python's exceptions
-- as values, lists and dictionaries.
mod Tests
mod Errors
mod Lists
mod Dicts
mod Texts
mod Words
pub use Tests.*
pub use Errors.*
pub use Lists.*
unfoldable pub use Texts.{text_of, digits_from}
pub use Texts.{value_from, value-text_of, are_low, are_low-text_of}
unfoldable pub use Words.{
  split, fields, pieces, rsplit, at_separator, strip, lstrip, rstrip, unless_blank, lower,
  after_prefix, starts_with, replace, replace_from, is_char, onto_first,
}
unfoldable pub use Dicts.{Dict, lookup, insert, pop, update, last, opt_eq, same}
pub use Dicts.{
  lookup-insert, lookup-pop, lookup-update, same_refl, same-lookup, IsDict, first, last-lookup,
}
pub use Prim.Native.Nat.{ℕ, zero, suc, ◌+◌, ◌-◌, ◌*◌, ◌/◌, ◌%◌, ◌^◌, ◌≤◌, ◌<◌, min, max}
pub use Prim.Native.String.{String}
pub use mathlib.Core.Path.{◌≡◌, refl, sym, ap, ◌∙◌, subst}
pub use mathlib.Core.Logic.{◌≢◌, ◌↔◌, ◌⊎◌, inl, inr}
pub use mathlib.Core.Bool.{Bool, true, false, not, ◌&&◌, ◌||◌}
pub use mathlib.Core.Option.{Option, none, some}
pub use mathlib.Core.List.{List, [], ◌∷◌, ◌++◌, map}
pub use native.Mathlib.Omega.{arith}
pub use text.Mathlib.Text.{◌==◌ as str_eq}
pub use text.Mathlib.TextEquality.{eq_iff}
pub use text.Mathlib.TextPositions.{eq_refl}
