-- ===== src/Base/Numeral.antt =====
-- Python's `int(text)` on a decimal text: white space around it, a sign, and single underscores
-- between the digits. Digits outside ASCII are not read.
use Prim.Native.Nat.{ℕ, zero, ◌+◌, ◌-◌, ◌*◌}
use mathlib.Core.Bool.{Bool, true, false, not, ◌&&◌}
use mathlib.Core.List.{[], ◌∷◌}
use mathlib.Core.Option
use mathlib.Core.Option.{Option, none, some}
use package.pelican_egg_dune_awakeni.Base.Int.{ℤ, pos, negsuc}
use package.pelican_egg_dune_awakeni.Base.Strings.{Text, strip}
use package.pelican_egg_dune_awakeni.Base.Tests.{leb, ◌==◌, if◌then◌else◌}

abbrev pub is_digit : ℕ → Bool
is_digit c = leb b'0' c && leb c b'9'

-- The digits after the first; the flag says that an underscore stands before.
unfoldable pub digits : Bool → ℕ → Text → Option ℕ
digits under acc [] = if under then none else some acc
digits under acc (c ∷ cs) =
    let underscore = digits true acc cs in
    let next = digits false (acc * 10 + (c - b'0')) cs in
    if is_digit c then next else if (c == b'_') && not under then underscore else none

unfoldable pub natural : Text → Option ℕ
unfolding digits
natural [] = none
natural (c ∷ cs) = if is_digit c then digits false (c - b'0') cs else none

abbrev negated : ℕ → ℤ
negated zero = pos 0
negated n = negsuc (n - 1)

abbrev signed : Text → Option ℤ
signed [] = none
signed (c ∷ cs) =
    if c == b'-'
    then Option.map negated (natural cs)
    else if c == b'+'
    then Option.map pos (natural cs)
    else Option.map pos (natural (c ∷ cs))

unfoldable pub int : Text → Option ℤ
unfolding natural strip
int t = signed (strip t)
