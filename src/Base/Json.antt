-- ===== src/Base/Json.antt =====
-- What `json.loads` gives. Of a float the code asks only whether it is zero.
use Prim.Native.Nat.{ℕ}
use mathlib.Core.Bool.{Bool, true, false, not, ◌||◌}
use mathlib.Core.List.{List, [], ◌∷◌, map}
use mathlib.Core.Option.{Option, none, some}
use package.pelican_egg_dune_awakeni.Base.Int.{ℤ, pos, negsuc}
use package.pelican_egg_dune_awakeni.Base.Numeral.{int}
use package.pelican_egg_dune_awakeni.Base.Strings.{Text, codes, strip, text_eq, is_empty}
use package.pelican_egg_dune_awakeni.Base.Tests.{◌==◌, if◌then◌else◌}

mutual
  pub data Json : Type 0 where
    null : Json
    boolean : Bool → Json
    integer : ℤ → Json
    real : Bool → Json
    string : Text → Json
    array : Items → Json
    object : Fields → Json

  pub data Items : Type 0 where
    nil : Items
    cons : Json → Items → Items

  pub data Fields : Type 0 where
    end : Fields
    field : Text → Json → Fields → Fields

-- `raw.get(key)`
unfoldable pub get : Text → Fields → Option Json
get key end = none
get key (field k v fs) = let rest = get key fs in if text_eq k key then some v else rest

-- `raw.get(key, default)`
abbrev pub get_or : Json → Option Json → Json
get_or d none = d
get_or d (some v) = v

-- `int(v)` of an int or a str that is no bool
unfoldable pub int_of : Json → Option ℤ
int_of (integer n) = some n
int_of (string t) = int t
int_of _ = none

abbrev nonzero : ℤ → Bool
nonzero (pos n) = not (n == 0)
nonzero (negsuc n) = true

abbrev any_of : Text → List Text → Bool
any_of t [] = false
any_of t (u ∷ us) = text_eq t u || any_of t us

-- `bool(v)`
abbrev pub truthy : Json → Bool
truthy null = false
truthy (boolean b) = b
truthy (integer n) = nonzero n
truthy (real is_zero) = not is_zero
truthy (string t) = not (is_empty t)
truthy (array nil) = false
truthy (array (cons x xs)) = true
truthy (object end) = false
truthy (object (field k v fs)) = true

-- `_coerce_bool`, with `lower` of a character
unfoldable pub coerce_bool : (ℕ → ℕ) → Json → Bool
coerce_bool lower (string t) =
    any_of (map lower (strip t)) (codes "1" ∷ codes "true" ∷ codes "yes" ∷ codes "on" ∷ [])
coerce_bool lower v = truthy v
