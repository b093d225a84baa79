-- ===== src/Base.antt =====
-- The names that the other modules share: the libraries', passed on, and those of the children.
mod Tests
mod Lists
mod Equality
mod Int
mod Maps
mod Loops
mod Keeping
mod Strings
pub use Tests.*
unfoldable pub use Lists.{keep}
pub use Lists.*
unfoldable pub use Equality.{list_beq}
pub use Equality.*
unfoldable pub use Int.{int_beq}
pub use Int.*
unfoldable pub use Maps.{content, take}
pub use Maps.*
unfoldable pub use Loops.{for_each}
pub use Loops.*
pub use Keeping.*
pub use Strings.{trim_right_stable}
unfoldable pub use Strings.{
  is_space, trim_left, trim_onto, trim_right, trim_space, cut_prefix, starts_with, contains_text,
  put_first, split_at,
}
pub use Prim.Native.Nat.{ℕ, zero, suc, ◌+◌, ◌-◌, ◌*◌, ◌/◌, ◌%◌, ◌^◌, ◌≤◌, ◌<◌, min, max}
pub use mathlib.Core.Path.{◌≡◌, refl, sym, ap, ap₂, subst, ◌∙◌, fun_ext}
pub use mathlib.Core.Logic.{◌≢◌, ◌↔◌, ◌⊎◌, inl, inr}
pub use mathlib.Core.Bool.{Bool, true, false, not, ◌&&◌, ◌||◌}
pub use mathlib.Core.Option.{Option, none, some}
pub use mathlib.Core.List.{List, [], ◌∷◌, ◌++◌, map}
pub use native.Mathlib.Omega.{arith}
unfoldable pub use native.Mathlib.Decide.{dec_lt, dec_le, ℕ_discrete}
