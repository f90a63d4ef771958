-- ===== src/Base.antt =====
-- Names, tests, lists, tables and JSON values that the other modules share. Base.Json has
-- `_coerce_bool` of scripts/admin_autoscaler.py; of the scripts there is no other code here.
mod Tests
mod Lists
mod Strings
pub mod Numeral
pub mod Int
pub mod Json
pub mod Table
pub mod TableKeys
pub use Tests.*
pub use Lists.*
unfoldable pub use Strings.{is_space, lstrip, rstrip, strip, text_eq, contains, partition, split}
pub use Strings.{Text, codes, is_empty, IsBlank, text_eq_iff, starts_with}
pub use Prim.Native.Nat.{ℕ, zero, suc, ◌+◌, ◌-◌, ◌*◌, ◌/◌, ◌%◌, ◌≤◌, ◌<◌, min, max}
pub use Prim.Native.String.{String}
pub use mathlib.Core.Path.{◌≡◌, refl, sym, ap, subst, ◌∙◌}
pub use mathlib.Core.Logic.{◌≢◌, ◌↔◌, ◌⊎◌, inl, inr}
pub use mathlib.Core.Bool.{Bool, true, false, not, ◌&&◌, ◌||◌}
pub use mathlib.Core.Option.{Option, none, some}
pub use mathlib.Core.List.{List, [], ◌∷◌, ◌++◌, map}
pub use native.Mathlib.Omega.{arith}
