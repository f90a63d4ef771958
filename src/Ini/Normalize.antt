-- ===== src/Ini/Normalize.antt =====
-- `coerce_decimal_comma` and `normalize_value`, over the text that `str` gives of the value, empty for
-- `None`. `lower` is that of a character, and `show_float` is `str(float(t))`, `none` for a
-- ValueError.
use pelican_egg_dune_awakeni.Base.{
  ℕ, zero, suc, ◌+◌, ◌/◌, ◌%◌, ◌==◌, Bool, false, ◌&&◌, ◌||◌, List, [], ◌∷◌, ◌++◌, map, Option,
  none, some, Text, codes, strip, split, text_eq, is_empty, ltb, if◌then◌else◌,
}
use pelican_egg_dune_awakeni.Base.Int.{ℤ, pos, negsuc}
use pelican_egg_dune_awakeni.Base.Numeral.{int}
use pelican_egg_dune_awakeni.Autoscaler.Demand.{is_number}
use pelican_egg_dune_awakeni.Ini.Merge.{text_in}

abbrev pub unsigned : Text → Text
unsigned [] = []
unsigned (c ∷ cs) = if c == 43 || c == 45 then cs else c ∷ cs

abbrev pub two_numbers : List Text → Bool
two_numbers (a ∷ b ∷ []) = is_number a && is_number b
two_numbers _ = false

-- `^[+-]?\d+,\d+$`
abbrev pub is_decimal_comma : Text → Bool
is_decimal_comma t = two_numbers (split 44 (unsigned t))

abbrev pub dot : ℕ → ℕ
dot c = if c == 44 then 46 else c

-- for the type `float`
unfoldable pub coerce_decimal_comma : Text → Text
coerce_decimal_comma raw = if is_decimal_comma (strip raw) then map dot (strip raw) else raw

-- the decimal digits; a number has fewer than its successor
unfoldable pub show_nat : ℕ → ℕ → Text
show_nat zero n = []
show_nat (suc fuel) n =
    let front = show_nat fuel (n / 10) in
    if ltb n 10 then (48 + n) ∷ [] else front ++ ((48 + n % 10) ∷ [])

-- `str(int)`
unfoldable pub show_int : ℤ → Text
show_int (pos n) = show_nat (suc n) n
show_int (negsuc n) = 45 ∷ show_nat (suc (suc n)) (suc n)

abbrev pub shown : Option ℤ → Option Text
shown none = none
shown (some n) = some (show_int n)

abbrev pub with_comma : Option Text → Option Text → Option Text
with_comma none rest = none
with_comma (some t) none = none
with_comma (some t) (some rest) = some (t ++ 44 ∷ rest)

-- `",".join(str(int(p.strip())) for p in parts)`
unfoldable pub join_ints : List Text → Option Text
join_ints [] = some []
join_ints (p ∷ []) = shown (int (strip p))
join_ints (p ∷ q ∷ ps) = with_comma (shown (int (strip p))) (join_ints (q ∷ ps))

abbrev pub has_break : Text → Bool
has_break [] = false
has_break (c ∷ cs) = (c == 10 || c == 13) || has_break cs

-- the text of a truth value
abbrev pub flag_text : Text → Text → Text → Option Text
flag_text on off low =
    if text_in low (codes "true" ∷ codes "1" ∷ codes "yes" ∷ codes "on" ∷ [])
    then some on
    else if text_in low (codes "false" ∷ codes "0" ∷ codes "no" ∷ codes "off" ∷ [])
    then some off
    else none

pub data SettingType : Type 0 where
  boolean cvarbool integer float enumeration intlist string verbatim : SettingType

module _ (lower : ℕ → ℕ) (show_float : Text → Option Text) where
  abbrev pub normalize : SettingType → List Text → Text → Option Text
  normalize boolean enum s = flag_text (codes "True") (codes "False") (map lower s)
  normalize cvarbool enum s = flag_text (codes "1") (codes "0") (map lower s)
  normalize integer enum s = shown (int s)
  normalize float enum s = show_float (coerce_decimal_comma s)
  normalize enumeration enum s = if text_in s enum then some s else none
  normalize intlist enum s = if is_empty s then some [] else join_ints (split 44 s)
  normalize string enum s = some s
  normalize verbatim enum s = if has_break s || is_empty s then none else some s

  -- the types by their names
  abbrev pub type_named : Text → Option SettingType
  type_named t =
      if text_eq t (codes "bool")
      then some boolean
      else if text_eq t (codes "cvarbool")
      then some cvarbool
      else if text_eq t (codes "int")
      then some integer
      else if text_eq t (codes "float")
      then some float
      else if text_eq t (codes "enum")
      then some enumeration
      else if text_eq t (codes "intlist")
      then some intlist
      else if text_eq t (codes "string")
      then some string
      else if text_eq t (codes "struct") || text_eq t (codes "array")
      then some verbatim
      else none

  abbrev pub normalize_as : Option SettingType → List Text → Text → Option Text
  normalize_as none enum s = none
  normalize_as (some t) enum s = normalize t enum s

  -- `none` is a ValueError
  unfoldable pub normalize_value : Text → List Text → Text → Option Text
  normalize_value vtype enum raw = normalize_as (type_named (map lower vtype)) enum (strip raw)
