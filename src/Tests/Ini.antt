-- ===== src/Tests/Ini.antt =====
-- A text with a comment on the key, a blank line and another section.
use pelican_egg_dune_awakeni.Base.{
  ℕ, ◌+◌, ◌≡◌, refl, true, ◌&&◌, Text, List, [], ◌∷◌, ◌++◌, some, codes, strip, lstrip, rstrip,
  is_space, leb, text_eq, contains, if◌then◌else◌,
}
use pelican_egg_dune_awakeni.Ini.Cut.{cut, end_line}
use pelican_egg_dune_awakeni.Ini.Lines.{
  prefix_rest, after_equals, keyed_value, signed_value, is_section, is_any_section,
}
use pelican_egg_dune_awakeni.Ini.Merge.{
  keyed_lines, repeated_lines, matched_lines, flat_lines, read_flat_from, close_last, inject,
  merge_line, merge_lines, upsert_keyed, upsert_repeated, upsert_matched, replace_first,
  upsert_flat, read_flat, read_keyed, read_repeated, render_value,
}
use pelican_egg_dune_awakeni.Ini.Flat.{read_flat-upsert_flat}
use pelican_egg_dune_awakeni.Ini.ReadBack.{read_keyed-upsert_keyed, read_repeated-upsert_repeated}

-- ASCII letters without their case
abbrev fold : ℕ → ℕ
fold c = if leb 65 c && leb c 90 then c + 32 else c

-- with line feeds, but for the last line
abbrev as_text : List Text → Text
as_text [] = []
as_text (t ∷ []) = t
as_text (t ∷ u ∷ ts) = t ++ 10 ∷ as_text (u ∷ ts)

abbrev start : Text
start = as_text (codes "[S]" ∷ codes "a = 1" ∷ codes "" ∷ codes "[t]" ∷ codes ";k=5" ∷ [])

-- the ends that are made of two characters, and of one
cut_run :
    cut (97 ∷ 13 ∷ 10 ∷ 13 ∷ 98 ∷ 8232 ∷ [])
    ≡ record { body = codes "a"; ending = 13 ∷ 10 ∷ [] }
      ∷ record { body = []; ending = 13 ∷ [] }
      ∷ record { body = codes "b"; ending = 8232 ∷ [] }
      ∷ []
unfolding cut end_line
cut_run = refl

-- the new line stands before the blank one
new_key_run :
    upsert_keyed fold (codes "s") start (codes "k") (codes "2")
    ≡ as_text
        (codes "[S]" ∷ codes "a = 1" ∷ codes "k=2" ∷ codes "" ∷ codes "[t]" ∷ codes ";k=5" ∷ [])
unfolding upsert_keyed keyed_lines cut end_line merge_lines merge_line inject keyed_value
    prefix_rest after_equals is_section is_any_section is_space
new_key_run = refl

comment_run :
    upsert_keyed fold (codes "T") start (codes "K") (codes "2")
    ≡ as_text (codes "[S]" ∷ codes "a = 1" ∷ codes "" ∷ codes "[t]" ∷ codes "K=2" ∷ codes "" ∷ [])
unfolding upsert_keyed keyed_lines cut end_line merge_lines merge_line inject keyed_value
    prefix_rest after_equals is_section is_any_section is_space
comment_run = refl

-- a comment above the live line is taken for it, and the live line stays
comment_above_run :
    upsert_keyed fold
      (codes "S")
      (as_text (codes "[S]" ∷ codes ";k=5" ∷ codes "k=1" ∷ []))
      (codes "k")
      (codes "2")
    ≡ as_text (codes "[S]" ∷ codes "k=2" ∷ codes "k=1" ∷ [])
unfolding upsert_keyed keyed_lines cut end_line merge_lines merge_line inject keyed_value
    prefix_rest after_equals is_section is_any_section is_space
comment_above_run = refl

new_section_run :
    upsert_repeated fold (codes "U") start (codes "k") (codes "2" ∷ [])
    ≡ as_text (
        codes "[S]"
        ∷ codes "a = 1"
        ∷ codes ""
        ∷ codes "[t]"
        ∷ codes ";k=5"
        ∷ codes ""
        ∷ codes "[U]"
        ∷ codes "+k=2"
        ∷ codes ""
        ∷ [])
unfolding upsert_repeated repeated_lines cut end_line merge_lines merge_line inject close_last
    signed_value prefix_rest after_equals is_section is_any_section is_space
new_section_run = refl

matched_run :
    upsert_matched fold (codes "S") start (codes "a") (codes "1" ∷ []) (codes "+a=3" ∷ [])
    ≡ as_text (codes "[S]" ∷ codes "+a=3" ∷ codes "" ∷ codes "[t]" ∷ codes ";k=5" ∷ [])
unfolding upsert_matched matched_lines cut end_line merge_lines merge_line inject close_last
    signed_value prefix_rest after_equals is_section is_any_section is_space strip lstrip rstrip
    text_eq
matched_run = refl

flat_run :
    read_flat fold (upsert_flat fold start (codes "k") (codes " 7")) (codes "K") ≡ some (codes "7")
unfolding upsert_flat flat_lines cut end_line replace_first read_flat read_flat_from keyed_value
    prefix_rest after_equals is_space strip lstrip rstrip
flat_run = refl

-- of a value with a line feed only the first line is read back
torn_run :
    read_flat fold (upsert_flat fold start (codes "k") (codes "7" ++ 10 ∷ codes "8")) (codes "k")
    ≡ some (codes "7")
unfolding upsert_flat flat_lines cut end_line replace_first read_flat read_flat_from keyed_value
    prefix_rest after_equals is_space strip lstrip rstrip
torn_run = refl

render_run : render_value (codes "a") true ≡ some (34 ∷ codes "a" ++ 34 ∷ [])
unfolding render_value contains
render_run = refl

read_keyed-upsert_keyed_example :
    read_keyed fold
      (codes "s")
      (upsert_keyed fold (codes "s") start (codes "k") (codes "2"))
      (codes "k")
    ≡ some (strip (codes "2"))
unfolding is_space
read_keyed-upsert_keyed_example =
    read_keyed-upsert_keyed fold (codes "s") start 107 [] (codes "2") refl refl refl refl refl

read_repeated-upsert_repeated_example :
    read_repeated fold
      (codes "s")
      (upsert_repeated fold (codes "s") start (codes "a") (codes "2" ∷ codes "3" ∷ []))
      (codes "a")
    ≡ some (codes "2,3")
unfolding strip lstrip rstrip is_space
read_repeated-upsert_repeated_example =
    read_repeated-upsert_repeated fold (codes "s") start (codes "a") (codes "2") (codes "3" ∷ [])
      refl (refl, (refl, tt)) refl

read_flat-upsert_flat_example :
    read_flat fold (upsert_flat fold start (codes "k") (codes "2")) (codes "k")
    ≡ some (strip (codes "2"))
unfolding is_space
read_flat-upsert_flat_example = read_flat-upsert_flat fold 107 [] (codes "2") start refl refl refl
