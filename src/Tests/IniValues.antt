-- ===== src/Tests/IniValues.antt =====
-- Values of settings; floats are shown as they are given.
use pelican_egg_dune_awakeni.Base.{
  ℕ, ◌+◌, ◌≡◌, refl, ◌&&◌, [], ◌∷◌, ◌++◌, Option, none, some, Text, codes, strip, lstrip, rstrip,
  is_space, split, leb, text_eq, if◌then◌else◌, Bool-cases, inl, inr,
}
use pelican_egg_dune_awakeni.Base.Numeral.{int, natural, digits}
use pelican_egg_dune_awakeni.Ini.Cut.{has_end}
use pelican_egg_dune_awakeni.Ini.Normalize.{
  show_nat, show_int, join_ints, coerce_decimal_comma, normalize_value, type_named,
}
use pelican_egg_dune_awakeni.Ini.NormalizeLaws.{Lined, Fits, normalize_value-Fits}

abbrev lower : ℕ → ℕ
lower c = if leb 65 c && leb c 90 then c + 32 else c

abbrev kept : Text → Option Text
kept t = if has_end t then none else some t

kept-Lined : (t : Text) → Lined (kept t)
kept-Lined t = elim (Bool-cases (has_end t)) [ inl h ↦ rw h tt | inr h ↦ rw h h ]

list_run :
    normalize_value lower kept (codes "IntList") [] (codes " 012, -7 ,1_0 ")
    ≡ some (codes "12,-7,10")
unfolding normalize_value join_ints show_int show_nat split strip lstrip rstrip is_space text_eq int
    natural digits
list_run = refl

comma_run : normalize_value lower kept (codes "float") [] (codes "-2,5") ≡ some (codes "-2.5")
unfolding normalize_value coerce_decimal_comma split strip lstrip rstrip is_space text_eq
comma_run = refl

-- a text with a line feed is accepted, and would be written as two lines
string_run :
    normalize_value lower kept (codes "string") [] (codes "a" ++ 10 ∷ codes "k=1")
    ≡ some (codes "a" ++ 10 ∷ codes "k=1")
unfolding normalize_value strip lstrip rstrip is_space text_eq
string_run = refl

-- a struct with a line separator (U+2028) is accepted, at which `splitlines` cuts
separator_run :
    normalize_value lower kept (codes "struct") [] (codes "(a)" ++ 8232 ∷ codes "k=1")
    ≡ some (codes "(a)" ++ 8232 ∷ codes "k=1")
unfolding normalize_value strip lstrip rstrip is_space text_eq
separator_run = refl

normalize_value-Fits_example : Fits (type_named lower kept (codes "intlist")) (codes "12,-7,10")
unfolding normalize_value join_ints show_int show_nat split strip lstrip rstrip is_space text_eq int
    natural digits
normalize_value-Fits_example =
    normalize_value-Fits lower kept kept-Lined [] tt (codes "IntList") (codes " 012, -7 ,1_0 ")
      {v = codes "12,-7,10"} refl
