-- ===== src/Ini/ReadBack.antt =====
-- A setting that was written is read back.
use pelican_egg_dune_awakeni.Base.{
  ℕ, ◌≡◌, inl, inr, refl, ap, ◌∙◌, Bool, true, false, ◌&&◌, ◌==◌, List, [], ◌∷◌, ◌++◌, map, Option,
  none, some, Text, strip, is_space, Bool-cases, Option-cases, is_some, All,
}
use pelican_egg_dune_awakeni.Ini.Collect.{
  live, is_plain-all_space, target_next-plain, line_values, live-step,
}
use pelican_egg_dune_awakeni.Ini.Blocks.{
  keyed_value-missed, signed_value-missed, keyed-IsBlock, array_block-IsBlock,
}
use pelican_egg_dune_awakeni.Ini.Cut.{cut, join, has_end}
use pelican_egg_dune_awakeni.Ini.CutLaws.{AllEnd, AreLines, cut-AreLines, reader-cut}
use pelican_egg_dune_awakeni.Ini.FinishLaws.{finish_keyed-live, finish_block-live}
use pelican_egg_dune_awakeni.Ini.Lines.{
  prefix_rest, after_equals, Line, keyed_value, signed_value, comment_or_space, any_sign,
  adding_sign,
}
use pelican_egg_dune_awakeni.Ini.Merge.{
  before, key_line, array_block, joined, target_next, is_plain, live_values, merge_lines,
  keyed_lines, repeated_lines, upsert_keyed, upsert_repeated, read_keyed_from, read_keyed,
  read_repeated,
}
use pelican_egg_dune_awakeni.Ini.MergeLines.{
  key_line-IsLine, array_block-AllEnd, merge_lines-AreLines, finish_keyed-AreLines,
  finish_block-AreLines,
}
use pelican_egg_dune_awakeni.Ini.MergeLaws.{before-IsMerged, merge_lines-IsMerged}

abbrev first_of : List Text → Option Text
first_of [] = none
first_of (v ∷ vs) = some v

module _ (fold : ℕ → ℕ) (section : Text) where
  line_values-blank :
      (value : Text → Option Text)
      → value [] ≡ none
      → (b : Bool) (x : List Text) → line_values fold section value b [] ++ x ≡ x
  line_values-blank value h true x = rw (is_plain-all_space fold section [] refl, h) refl
  line_values-blank value h false x = refl

  read_keyed_from-live :
      (key : Text) (b : Bool) (ls : List Line)
      → read_keyed_from fold section key b ls
        ≡ first_of (live fold section (keyed_value is_space fold key) b ls)
  unfolding read_keyed_from live_values
  read_keyed_from-live key b [] = refl
  read_keyed_from-live key b (l ∷ ls) =
      let ih = read_keyed_from-live key (target_next fold section b l.body) ls in
      elim (Bool-cases (b && is_plain fold section l.body)) [
        | inr e ↦ rw e ih
        | inl e ↦ elim (Option-cases (keyed_value is_space fold key l.body)) [
          | inl n ↦ rw (e, n) ih
          | inr (v, there) ↦ rw (e, there) refl
        ]
      ]

  -- a reader of the text that is put together sees the lines that were written
  live-cut :
      (value : Text → Option Text) (ls : List Line)
      → value [] ≡ none
      → AreLines ls
      → live fold section value false (cut (join ls)) ≡ live fold section value false ls
  live-cut value ls h k =
      reader-cut (target_next fold section) (λ b t x. line_values fold section value b t ++ x)
        (λ b ls. live fold section value b ls) (live-step fold section value)
        (λ b. target_next-plain fold section b [] (is_plain-all_space fold section [] refl))
        (line_values-blank value h) false ls k

  keyed_lines-first :
      (lines : List Line) (c : ℕ) (cs v : Text)
      → is_space c ≡ false
      → c == 91 ≡ false
      → first_of (
          live fold section
            (keyed_value is_space fold (c ∷ cs))
            false
            (keyed_lines fold section lines (c ∷ cs) v))
        ≡ some (strip v)
  unfolding keyed_lines
  keyed_lines-first lines c cs v s b =
      let value = keyed_value is_space fold (c ∷ cs) in
      let matches : Text → Bool = λ t. is_some (keyed_value comment_or_space fold (c ∷ cs) t) in
      let block = key_line (c ∷ cs) v ∷ [] in
      let fits = keyed-IsBlock fold section c cs v s b in
      let o =
        merge_lines-IsMerged fold section value true matches block (strip v ∷ []) before lines
          (keyed_value-missed fold (c ∷ cs)) fits
          (before-IsMerged fold section value true matches block (strip v ∷ [])) in
      ap first_of
        (finish_keyed-live fold section value block (strip v ∷ []) true matches _ fits refl o)

  keyed_lines-AreLines :
      (lines : List Line) (key v : Text)
      → has_end key ≡ false
      → has_end v ≡ false
      → has_end section ≡ false
      → AreLines lines
      → AreLines (keyed_lines fold section lines key v)
  unfolding keyed_lines
  keyed_lines-AreLines lines key v h k n a =
      let block = key_line key v ∷ [] in
      let matches : Text → Bool = λ t. is_some (keyed_value comment_or_space fold key t) in
      let ends : AllEnd block = (key_line-IsLine key v h k, tt) in
      finish_keyed-AreLines fold section block ends
        (merge_lines fold section true matches block before lines) n
        (merge_lines-AreLines fold section true matches block ends before lines tt a)

  -- For a key that begins with neither a white space nor a bracket, a value that is written under
  -- a section of any text is read back from there, without the white space around it, if neither
  -- the key nor the value nor the name of the section has a line end of `splitlines`.
  pub read_keyed-upsert_keyed :
      (text : Text) (c : ℕ) (cs v : Text)
      → is_space c ≡ false
      → c == 91 ≡ false
      → has_end (c ∷ cs) ≡ false
      → has_end v ≡ false
      → has_end section ≡ false
      → read_keyed fold section (upsert_keyed fold section text (c ∷ cs) v) (c ∷ cs)
        ≡ some (strip v)
  unfolding read_keyed upsert_keyed keyed_value prefix_rest
  read_keyed-upsert_keyed text c cs v s b h k n =
      let written = keyed_lines fold section (cut text) (c ∷ cs) v in
      read_keyed_from-live (c ∷ cs) false (cut (join written))
      ∙ ap first_of (
          live-cut (keyed_value is_space fold (c ∷ cs)) written refl
            (keyed_lines-AreLines (cut text) (c ∷ cs) v h k n (cut-AreLines text)))
      ∙ keyed_lines-first (cut text) c cs v s b

  repeated_lines-live :
      (lines : List Line) (key v : Text) (vs : List Text)
      → live fold section
          (signed_value adding_sign fold key)
          false
          (repeated_lines fold section lines key (v ∷ vs))
        ≡ map strip (v ∷ vs)
  unfolding repeated_lines
  repeated_lines-live lines key v vs =
      let value = signed_value adding_sign fold key in
      let matches : Text → Bool = λ t. is_some (signed_value any_sign fold key t) in
      let block = array_block key (v ∷ vs) in
      let ws = map strip (v ∷ vs) in
      let fits = array_block-IsBlock fold section key (v ∷ vs) in
      let o =
        merge_lines-IsMerged fold section value false matches block ws before lines
          (signed_value-missed fold key) fits
          (before-IsMerged fold section value false matches block ws) in
      finish_block-live fold section value block ws matches lines _ fits refl o

  repeated_lines-AreLines :
      (lines : List Line) (key v : Text) (vs : List Text)
      → has_end key ≡ false
      → All (λ u. has_end u ≡ false) (v ∷ vs)
      → has_end section ≡ false
      → AreLines lines
      → AreLines (repeated_lines fold section lines key (v ∷ vs))
  unfolding repeated_lines
  repeated_lines-AreLines lines key v vs h k n a =
      let block = array_block key (v ∷ vs) in
      let matches : Text → Bool = λ t. is_some (signed_value any_sign fold key t) in
      let ends = array_block-AllEnd key (v ∷ vs) h k in
      finish_block-AreLines fold section block ends lines
        (merge_lines fold section false matches block before lines) refl n
        (merge_lines-AreLines fold section false matches block ends before lines tt a)

  signed_value-nil : (key : Text) → signed_value adding_sign fold key [] ≡ none
  unfolding signed_value prefix_rest after_equals
  signed_value-nil [] = refl
  signed_value-nil (c ∷ cs) = refl

  -- One or more values that are written as an array under a section of any text are read back as
  -- the only ones, in their order, without the white space around them, if neither the key nor a
  -- value nor the name of the section has a line end of `splitlines`.
  pub read_repeated-upsert_repeated :
      (text key v : Text) (vs : List Text)
      → has_end key ≡ false
      → All (λ u. has_end u ≡ false) (v ∷ vs)
      → has_end section ≡ false
      → read_repeated fold section (upsert_repeated fold section text key (v ∷ vs)) key
        ≡ joined (map strip (v ∷ vs))
  unfolding read_repeated upsert_repeated
  read_repeated-upsert_repeated text key v vs h k n = ap joined (
      live-cut (signed_value adding_sign fold key)
        (repeated_lines fold section (cut text) key (v ∷ vs)) (signed_value-nil key)
        (repeated_lines-AreLines (cut text) key v vs h k n (cut-AreLines text))
      ∙ repeated_lines-live (cut text) key v vs)
