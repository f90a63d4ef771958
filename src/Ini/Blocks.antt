-- ===== src/Ini/Blocks.antt =====
-- The lines that the upserts write, and what the readers see in them.
use pelican_egg_dune_awakeni.Base.{
  ℕ, ◌≡◌, refl, ap, true, false, ◌==◌, List, [], ◌∷◌, ◌++◌, map, none, some, Text, strip, is_space,
  is_some, arith,
}
use pelican_egg_dune_awakeni.Ini.Collect.{IsBlock}
use pelican_egg_dune_awakeni.Ini.Lines.{
  prefix_rest, after_equals, after_key, keyed_value, signed_value, comment_or_space, any_sign,
  adding_sign, is_section, is_any_section,
}
use pelican_egg_dune_awakeni.Ini.Merge.{key_line, array_block, live_values}

module _ (fold : ℕ → ℕ) where
  prefix_rest-append : (k t : Text) → prefix_rest fold k (k ++ t) ≡ some t
  unfolding prefix_rest
  prefix_rest-append [] t = refl
  prefix_rest-append (c ∷ cs) t = ground (arith, prefix_rest-append cs t)

  after_key-line : (key v : Text) → after_key fold key (key ++ 61 ∷ v) ≡ some v
  unfolding after_equals
  after_key-line key v = rw (prefix_rest-append key (61 ∷ v)) refl

  pub keyed_value-line :
      (c : ℕ) (cs v : Text)
      → is_space c ≡ false
      → keyed_value is_space fold (c ∷ cs) (c ∷ (cs ++ 61 ∷ v)) ≡ some v
  unfolding keyed_value
  keyed_value-line c cs v h = rw (h, after_key-line (c ∷ cs) v) refl

  signed_value-line :
      (key v : Text) → signed_value adding_sign fold key (43 ∷ (key ++ 61 ∷ v)) ≡ some v
  unfolding signed_value is_space
  signed_value-line key v = rw (after_key-line key v) refl

  -- what a reader sees, the writer replaces
  pub keyed_value-missed :
      (key t : Text)
      → is_some (keyed_value comment_or_space fold key t) ≡ false
      → keyed_value is_space fold key t ≡ none
  unfolding keyed_value
  keyed_value-missed key [] h = ground arith
  keyed_value-missed key (c ∷ cs) h = ground (arith, keyed_value-missed key cs)

  pub signed_value-missed :
      (key t : Text)
      → is_some (signed_value any_sign fold key t) ≡ false
      → signed_value adding_sign fold key t ≡ none
  unfolding signed_value
  signed_value-missed key [] h = ground arith
  signed_value-missed key (c ∷ cs) h = ground (arith, signed_value-missed key cs)

  pub header-is_section : (name : Text) → is_section fold name (91 ∷ (name ++ 93 ∷ [])) ≡ true
  unfolding is_section
  header-is_section name = rw (prefix_rest-append name (93 ∷ [])) refl

  pub is_section-nil : (name : Text) → is_section fold name [] ≡ false
  unfolding is_section
  is_section-nil name = refl

  module _ (section : Text) where
    pub keyed-IsBlock :
        (c : ℕ) (cs v : Text)
        → is_space c ≡ false
        → c == 91 ≡ false
        → IsBlock fold section
            (keyed_value is_space fold (c ∷ cs))
            (key_line (c ∷ cs) v ∷ [])
            (strip v ∷ [])
    unfolding is_section is_any_section live_values
    keyed-IsBlock c cs v s b = record {
      plain = (rw (s, b) refl, tt);
      held = rw (s, b, keyed_value-line c cs v s) refl;
    }

    pub array_block-IsBlock :
        (key : Text) (vs : List Text)
        → IsBlock fold section
            (signed_value adding_sign fold key)
            (array_block key vs)
            (map strip vs)
    unfolding is_section is_any_section live_values is_space
    array_block-IsBlock key [] = record { plain = tt; held = refl }
    array_block-IsBlock key (v ∷ vs) =
        let rest = array_block-IsBlock key vs in
        record {
          plain = (refl, rest.plain);
          held = rw (signed_value-line key v) (ap (λ t. strip v ∷ t) rest.held);
        }
