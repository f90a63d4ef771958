-- ===== src/Market/Category.antt =====
-- `category_mask`, `unique_schematics_mask` and `category_for`. Codes are below 256, so that `|` of
-- their shifts adds them.
use pelican_egg_dune_awakeni.Base.{
  ℕ, ◌+◌, ◌*◌, ◌==◌, Bool, not, ◌&&◌, ◌||◌, List, [], ◌∷◌, Option, none, some, Text, codes, split,
  is_empty, is_some, text_eq, or_else, if◌then◌else◌,
}
use pelican_egg_dune_awakeni.Market.Codes.{
  depth1_codes, depth2_codes, depth3_codes, depth3_parents, unique_depth2, unique_depth3, lookup,
  lookup_pair,
}

abbrev pub pack : ℕ → ℕ → ℕ → ℕ
pack a b c = a * 16777216 + (b * 65536 + c * 256)

unfoldable pub code1 : Text → ℕ
code1 a = or_else (lookup depth1_codes a) 0

unfoldable pub code2 : Text → ℕ
code2 b = or_else (lookup depth2_codes b) 0

-- the parent's code comes first
unfoldable pub code3 : Text → Text → ℕ
code3 b c = or_else (lookup_pair depth3_parents b c) (or_else (lookup depth3_codes c) 0)

-- the third code of a short or a long blade
abbrev pub blade : Text → Option ℕ
blade b =
    if text_eq b (codes "shortblades")
    then some 0
    else if text_eq b (codes "longblades")
    then some 1
    else none

abbrev pub remapped : Text → Text → Option ℕ
remapped a b = if text_eq a (codes "weapons") then blade b else none

abbrev pub or_blade : Option ℕ → ℕ × ℕ → ℕ × ℕ
or_blade (some d3) m = (pack 1 0 d3, 3)
or_blade none m = m

-- the mask and the depth
abbrev pub mask_of : List Text → ℕ × ℕ
mask_of [] = (0, 0)
mask_of (root ∷ []) = (0, 0)
mask_of (root ∷ a ∷ []) = (pack (code1 a) 0 0, 1)
mask_of (root ∷ a ∷ b ∷ []) = or_blade (remapped a b) (pack (code1 a) (code2 b) 0, 2)
mask_of (root ∷ a ∷ b ∷ c ∷ rest) =
    or_blade (remapped a b) (pack (code1 a) (code2 b) (code3 b c), 3)

unfoldable pub category_mask : Text → ℕ × ℕ
category_mask t = if is_empty t then (0, 0) else mask_of (split 47 t)

abbrev pub third : Text → List Text → Option ℕ
third b [] = lookup unique_depth3 b
third b (c ∷ rest) =
    if is_some (lookup unique_depth3 b) then lookup unique_depth3 b else lookup unique_depth3 c

abbrev pub unique_of : Text → Option ℕ → Option ℕ → Option (ℕ × ℕ)
unique_of a (some d2) (some d3) = some (pack (code1 a) d2 d3, 3)
unique_of a _ _ = none

abbrev pub unique_parts : List Text → Option (ℕ × ℕ)
unique_parts (root ∷ a ∷ b ∷ rest) = unique_of a (lookup unique_depth2 a) (third b rest)
unique_parts _ = none

unfoldable pub unique_schematics_mask : Text → Option (ℕ × ℕ)
unique_schematics_mask t = unique_parts (split 47 t)

abbrev pub standard : Text → Option (ℕ × ℕ)
standard t = if is_empty t || (category_mask t).0 == 0 then none else some (category_mask t)

abbrev pub or_standard : Text → Option (ℕ × ℕ) → Option (ℕ × ℕ)
or_standard t (some m) = some m
or_standard t none = standard t

-- `none` is to be skipped
unfoldable pub category_for : Bool → Text → Option (ℕ × ℕ)
category_for is_schematic t =
    if is_schematic && not (is_empty t)
    then or_standard t (unique_schematics_mask t)
    else standard t
