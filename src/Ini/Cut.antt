-- ===== src/Ini/Cut.antt =====
-- `str.splitlines(keepends=True)`, which cuts a text into lines with their ends, and the `"".join`
-- that puts them together again.
use pelican_egg_dune_awakeni.Base.{
  ℕ, ◌==◌, Bool, false, ◌&&◌, ◌||◌, List, [], ◌∷◌, ◌++◌, Text, leb, is_empty, if◌then◌else◌,
}
use pelican_egg_dune_awakeni.Ini.Lines.{Line}

-- the characters that end a line, by the documentation of `str.splitlines`
abbrev pub is_end : ℕ → Bool
is_end c =
    (leb 10 c && leb c 13) || ((leb 28 c && leb c 30) || (c == 133 || (c == 8232 || c == 8233)))

abbrev pub has_end : Text → Bool
has_end [] = false
has_end (c ∷ cs) = is_end c || has_end cs

abbrev only_feed : Text → Bool
only_feed [] = false
only_feed (c ∷ []) = c == 10
only_feed (c ∷ d ∷ cs) = false

-- a line of a line feed alone, which a carriage return before it makes its own
abbrev pub is_feed : Line → Bool
is_feed l = is_empty l.body && only_feed l.ending

unfoldable pub end_line : ℕ → List Line → List Line
end_line c [] = record { body = []; ending = c ∷ [] } ∷ []
end_line c (l ∷ ls) =
    if c == 13 && is_feed l
    then record { body = []; ending = 13 ∷ 10 ∷ [] } ∷ ls
    else record { body = []; ending = c ∷ [] } ∷ l ∷ ls

abbrev pub add_first : ℕ → List Line → List Line
add_first c [] = record { body = c ∷ []; ending = [] } ∷ []
add_first c (l ∷ ls) = record l { body = c ∷ l.body } ∷ ls

unfoldable pub cut : Text → List Line
cut [] = []
cut (c ∷ cs) = let rest = cut cs in if is_end c then end_line c rest else add_first c rest

abbrev pub join : List Line → Text
join [] = []
join (l ∷ ls) = l.body ++ (l.ending ++ join ls)
