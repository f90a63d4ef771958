-- ===== src/Ini/Flat.antt =====
-- `upsert_flat` and `read_flat_from`, on texts without sections.
use pelican_egg_dune_awakeni.Base.{
  ℕ, ◌≡◌, inl, inr, refl, subst, ◌∙◌, false, List, [], ◌∷◌, ◌++◌, Option, none, some, Text, strip,
  is_space, Bool-cases, Option-cases, is_some,
}
use pelican_egg_dune_awakeni.Ini.Blocks.{keyed_value-line, keyed_value-missed}
use pelican_egg_dune_awakeni.Ini.Cut.{cut, join, has_end}
use pelican_egg_dune_awakeni.Ini.CutLaws.{AreLines, cut-AreLines, reader-cut}
use pelican_egg_dune_awakeni.Ini.Lines.{prefix_rest, Line, keyed_value, comment_or_space}
use pelican_egg_dune_awakeni.Ini.MergeLines.{flat_lines-AreLines}
use pelican_egg_dune_awakeni.Ini.Merge.{
  key_line, ends_newline, first_value, close_last, replace_first, flat_lines, upsert_flat,
  read_flat_from, read_flat,
}

module _ (fold : ℕ → ℕ) where
  read_flat_from-skip :
      (key : Text) (l : Line) (ls : List Line)
      → keyed_value is_space fold key l.body ≡ none
      → read_flat_from fold (l ∷ ls) key ≡ read_flat_from fold ls key
  unfolding read_flat_from
  read_flat_from-skip key l ls h = rw h refl

  read_flat_from-skip_closed :
      (key : Text) (l : Line) (ls ys : List Line)
      → keyed_value is_space fold key l.body ≡ none
      → read_flat_from fold (close_last ls ++ ys) key ≡ read_flat_from fold ys key
      → read_flat_from fold (close_last (l ∷ ls) ++ ys) key ≡ read_flat_from fold ys key
  unfolding close_last read_flat_from
  read_flat_from-skip_closed key l [] ys h e = elim (Bool-cases (ends_newline l.ending)) [
    | inl nl ↦ simp (nl, h)
    | inr nl ↦ simp (nl, h)
  ]
  read_flat_from-skip_closed key l (m ∷ ls) ys h e =
      read_flat_from-skip key l (close_last (m ∷ ls) ++ ys) h ∙ e

  module _ (c : ℕ) (cs v : Text) where
    -- either a line was replaced, or no line holds the key
    abbrev Reads : List Line → Option (List Line) → Type 0
    Reads ls none =
        (ys : List Line)
        → read_flat_from fold (close_last ls ++ ys) (c ∷ cs) ≡ read_flat_from fold ys (c ∷ cs)
    Reads ls (some ms) = read_flat_from fold ms (c ∷ cs) ≡ some (strip v)

    read_flat_from-line :
        (ls : List Line)
        → is_space c ≡ false
        → read_flat_from fold (key_line (c ∷ cs) v ∷ ls) (c ∷ cs) ≡ some (strip v)
    unfolding read_flat_from
    read_flat_from-line ls h = rw (keyed_value-line fold c cs v h) refl

    replace_first-Reads :
        (ls : List Line)
        → is_space c ≡ false
        → Reads ls (replace_first fold (c ∷ cs) (key_line (c ∷ cs) v) ls)
    unfolding replace_first close_last
    replace_first-Reads [] h = λ ys. refl
    replace_first-Reads (l ∷ ls) h =
        let ih = replace_first-Reads ls h in
        elim (Bool-cases (is_some (keyed_value comment_or_space fold (c ∷ cs) l.body))) [
          | inl e ↦ rw e (read_flat_from-line ls h)
          | inr e ↦
              let miss = keyed_value-missed fold (c ∷ cs) l.body e in
              elim (Option-cases (replace_first fold (c ∷ cs) (key_line (c ∷ cs) v) ls)) [
                | inl n ↦
                    let skipped = subst (Reads ls) n ih in
                    rw (e, n) (λ ys. read_flat_from-skip_closed (c ∷ cs) l ls ys miss (skipped ys))
                | inr (ms, there) ↦
                    let kept = subst (Reads ls) there ih in
                    rw (e, there) (read_flat_from-skip (c ∷ cs) l ms miss ∙ kept)
              ]
        ]

    flat_lines-first :
        (lines : List Line)
        → is_space c ≡ false
        → read_flat_from fold (flat_lines fold lines (c ∷ cs) v) (c ∷ cs) ≡ some (strip v)
    unfolding flat_lines
    flat_lines-first lines h =
        let reads = replace_first-Reads lines h in
        elim (Option-cases (replace_first fold (c ∷ cs) (key_line (c ∷ cs) v) lines)) [
          | inl n ↦
              rw n
                (subst (Reads lines) n reads (key_line (c ∷ cs) v ∷ []) ∙ read_flat_from-line [] h)
          | inr (ms, there) ↦ rw there (subst (Reads lines) there reads)
        ]

    read_flat_from-cut :
        (ls : List Line)
        → AreLines ls
        → read_flat_from fold (cut (join ls)) (c ∷ cs) ≡ read_flat_from fold ls (c ∷ cs)
    unfolding read_flat_from keyed_value prefix_rest
    read_flat_from-cut ls h =
        reader-cut {B = Unit} (λ b t. b)
          (λ b t x. first_value (keyed_value is_space fold (c ∷ cs) t) x)
          (λ b ls. read_flat_from fold ls (c ∷ cs)) (λ b l ls. refl) (λ b. refl) (λ b x. refl) tt ls
          h

    -- For a key that does not begin with a white space, a value that is written to a text without
    -- sections is read back, without the white space around it, if neither the key nor the value
    -- has a line end of `splitlines`.
    pub read_flat-upsert_flat :
        (text : Text)
        → is_space c ≡ false
        → has_end (c ∷ cs) ≡ false
        → has_end v ≡ false
        → read_flat fold (upsert_flat fold text (c ∷ cs) v) (c ∷ cs) ≡ some (strip v)
    unfolding upsert_flat read_flat
    read_flat-upsert_flat text s h k =
        read_flat_from-cut (flat_lines fold (cut text) (c ∷ cs) v)
          (flat_lines-AreLines fold (cut text) (c ∷ cs) v h k (cut-AreLines text))
        ∙ flat_lines-first (cut text) s
