-- ===== src/Ini/NormalizeLaws.antt =====
-- The line ends in what `normalize_value` gives.
use pelican_egg_dune_awakeni.Base.{
  ℕ, zero, suc, ◌+◌, ◌/◌, ◌%◌, ◌≡◌, refl, subst, Bool, true, false, ◌||◌, Bool-cases, inl, inr,
  List, [], ◌∷◌, ◌++◌, map, Option, none, some, Text, codes, strip, split, text_eq, text_eq_iff,
  is_empty, ltb, All, if◌then◌else◌, arith,
}
use pelican_egg_dune_awakeni.Base.Int.{ℤ, pos, negsuc}
use pelican_egg_dune_awakeni.Base.Numeral.{int}
use pelican_egg_dune_awakeni.Ini.Cut.{has_end}
use pelican_egg_dune_awakeni.Ini.Merge.{text_in}
use pelican_egg_dune_awakeni.Ini.Normalize.{
  show_nat, show_int, shown, with_comma, join_ints, has_break, flag_text, SettingType, boolean,
  cvarbool, integer, float, enumeration, intlist, string, verbatim, normalize, type_named,
  normalize_as, normalize_value, coerce_decimal_comma,
}

-- no line end of `splitlines`
abbrev pub IsLine : Text → Type 0
IsLine t = has_end t ≡ false

-- what an optional text is, if it is there
abbrev pub Lined : Option Text → Type 0
Lined none = Unit
Lined (some t) = IsLine t

IsLine-append : (s t : Text) → IsLine s → IsLine t → IsLine (s ++ t)
IsLine-append [] t h k = k
IsLine-append (c ∷ s) t h k = ground (arith, IsLine-append s t)

show_nat-IsLine : (fuel n : ℕ) → IsLine (show_nat fuel n)
unfolding show_nat
show_nat-IsLine zero n = refl
show_nat-IsLine (suc fuel) n = elim (Bool-cases (ltb n 10)) [
  | inl h ↦ rw h (ground arith)
  | inr h ↦ rw h (
      IsLine-append (show_nat fuel (n / 10)) ((48 + n % 10) ∷ []) (show_nat-IsLine fuel (n / 10))
        (ground arith))
]

shown-Lined : (o : Option ℤ) → Lined (shown o)
unfolding show_int
shown-Lined none = tt
shown-Lined (some (pos n)) = show_nat-IsLine (suc n) n
shown-Lined (some (negsuc n)) = show_nat-IsLine (suc (suc n)) (suc n)

with_comma-Lined : (o p : Option Text) → Lined o → Lined p → Lined (with_comma o p)
with_comma-Lined none p h k = tt
with_comma-Lined (some t) none h k = tt
with_comma-Lined (some t) (some u) h k = IsLine-append t (44 ∷ u) h k

join_ints-Lined : (ps : List Text) → Lined (join_ints ps)
unfolding join_ints
join_ints-Lined [] = refl
join_ints-Lined (p ∷ []) = shown-Lined (int (strip p))
join_ints-Lined (p ∷ q ∷ ps) =
    with_comma-Lined (shown (int (strip p))) (join_ints (q ∷ ps)) (shown-Lined (int (strip p)))
      (join_ints-Lined (q ∷ ps))

if-Lined : (b : Bool) (o p : Option Text) → Lined o → Lined p → Lined (if b then o else p)
if-Lined true o p h k = h
if-Lined false o p h k = k

flag_text-Lined : (on off low : Text) → IsLine on → IsLine off → Lined (flag_text on off low)
flag_text-Lined on off low h k =
    let is_off = text_in low (codes "false" ∷ codes "0" ∷ codes "no" ∷ codes "off" ∷ []) in
    if-Lined (text_in low (codes "true" ∷ codes "1" ∷ codes "yes" ∷ codes "on" ∷ [])) (some on)
      (if is_off then some off else none) h (if-Lined is_off (some off) none k tt)

text_in-Lined :
    (s : Text) (enum : List Text)
    → All IsLine enum
    → Lined (if text_in s enum then some s else none)
text_in-Lined s [] h = tt
text_in-Lined s (t ∷ ts) (a, h) = elim (Bool-cases (text_eq s t)) [
  | inl e ↦ rw (e, (text_eq_iff s t).0 e) a
  | inr e ↦ rw e (text_in-Lined s ts h)
]

-- what a struct or an array is refused for: a line feed or a carriage return
verbatim-refused :
    (s : Text) {v : Text}
    → (if has_break s || is_empty s then none else some s) ≡ some v
    → has_break v ≡ false
verbatim-refused s e = elim (Bool-cases (has_break s)) [
  | inl h ↦ ground arith
  | inr h ↦ ground arith
]

-- the line ends that the value of a setting is without
abbrev pub WithoutEnds : SettingType → Text → Type 0
WithoutEnds string v = Unit
WithoutEnds verbatim v = has_break v ≡ false
WithoutEnds _ v = IsLine v

-- the same of a type by its name
abbrev pub Fits : Option SettingType → Text → Type 0
Fits none v = ⊥
Fits (some t) v = WithoutEnds t v

module _ (lower : ℕ → ℕ) (show_float : Text → Option Text)
    (floats : (t : Text) → Lined (show_float t)) (enum : List Text)
    (options : All IsLine enum) where
  normalize-WithoutEnds :
      (t : SettingType) (s : Text) {v : Text}
      → normalize lower show_float t enum s ≡ some v
      → WithoutEnds t v
  normalize-WithoutEnds boolean s e =
      subst Lined e (flag_text-Lined (codes "True") (codes "False") (map lower s) refl refl)
  normalize-WithoutEnds cvarbool s e =
      subst Lined e (flag_text-Lined (codes "1") (codes "0") (map lower s) refl refl)
  normalize-WithoutEnds integer s e = subst Lined e (shown-Lined (int s))
  normalize-WithoutEnds float s e = subst Lined e (floats (coerce_decimal_comma s))
  normalize-WithoutEnds enumeration s e = subst Lined e (text_in-Lined s enum options)
  normalize-WithoutEnds intlist s e =
      subst Lined e (
        if-Lined (is_empty s) (some []) (join_ints (split 44 s)) refl
          (join_ints-Lined (split 44 s)))
  normalize-WithoutEnds string s e = tt
  normalize-WithoutEnds verbatim s e = verbatim-refused s e

  normalize_as-Fits :
      (o : Option SettingType) (s : Text) {v : Text}
      → normalize_as lower show_float o enum s ≡ some v
      → Fits o v
  normalize_as-Fits none s e = cc
  normalize_as-Fits (some t) s e = normalize-WithoutEnds t s e

  -- If floats are shown without the line ends of `splitlines` and no option of the enumeration
  -- has any, what is accepted for a setting has a known type; if it is neither string nor one of
  -- those for structs and arrays, the value has none of these line ends either, and for structs
  -- and arrays no line feed and no carriage return.
  pub normalize_value-Fits :
      (vtype raw : Text) {v : Text}
      → normalize_value lower show_float vtype enum raw ≡ some v
      → Fits (type_named lower show_float (map lower vtype)) v
  unfolding normalize_value
  normalize_value-Fits vtype raw e =
      normalize_as-Fits (type_named lower show_float (map lower vtype)) (strip raw) e
