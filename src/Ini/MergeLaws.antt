-- ===== src/Ini/MergeLaws.antt =====
-- What a merge writes is what a reader collects.
use pelican_egg_dune_awakeni.Base.{
  ℕ, ◌≡◌, ◌⊎◌, inl, inr, refl, ap, sym, ◌∙◌, Bool, true, false, not, ◌&&◌, List, [], ◌∷◌, ◌++◌,
  Option, none, Text, Bool-cases, is_empty, if◌then◌else◌, arith,
}
use mathlib.Core.List.{append_assoc, append-nil}
use pelican_egg_dune_awakeni.Ini.Collect.{
  target_after, target_after-append, target_next-plain, live, line_values, live-step, live-append,
  live-inject, IsBlock, target_after-IsBlock,
}
use pelican_egg_dune_awakeni.Ini.Lines.{Line, is_section, is_any_section}
use pelican_egg_dune_awakeni.Ini.Merge.{
  Merge, before, merge_line, merge_lines, leave, replace, target_next, is_plain, inject,
  live_values,
}

module _ (fold : ℕ → ℕ) (section : Text) (value : Text → Option Text) where
  live-append_line :
      (b : Bool) (out : List Line) (l : Line)
      → live fold section value b (out ++ l ∷ [])
        ≡ live fold section value b out
          ++ line_values fold section value (target_after fold section b out) l.body
  unfolding live_values
  live-append_line b out l =
      live-append fold section value b out (l ∷ [])
      ∙ ap (λ t. live fold section value b out ++ t)
          (live-step fold section value (target_after fold section b out) l [] ∙ append-nil _)

  line_values-header :
      (b : Bool) (t : Text)
      → is_plain fold section t ≡ false
      → line_values fold section value b t ≡ []
  line_values-header b t h = ground arith

  module _ (once : Bool) (matches : Text → Bool) (block : List Line) (vs : List Text) where
    -- What was read of the lines written so far: nothing before the block is written, and then its
    -- values first. Others may follow where only the first match is replaced.
    pub record IsMerged (s : Merge) : Type 0 where
      pub extra : List Text
      pub target : target_after fold section false s.out ≡ s.in_target
      pub values : live fold section value false s.out ≡ (if s.written then vs else []) ++ extra
      pub bounded : ((s.written ≡ true) × (once ≡ true)) ⊎ (extra ≡ [])
      pub seen : (s.section_seen ≡ true) ⊎ ((s.in_target ≡ false) × (s.written ≡ false))
      pub placed :
          (s.in_target ≡ true)
          ⊎ ((s.written ≡ true) ⊎ ((is_empty block ≡ true) ⊎ (s.section_seen ≡ false)))

    pub before-IsMerged : IsMerged before
    unfolding live_values
    before-IsMerged = record {
      extra = [];
      target = refl;
      values = refl;
      bounded = inr refl;
      seen = inr (refl, refl);
      placed = inr (inr (inr refl));
    }

    -- a line that holds no value is added
    added_values :
        (s : Merge) (l : Line) (o : IsMerged s)
        → line_values fold section value s.in_target l.body ≡ []
        → live fold section value false (s.out ++ l ∷ [])
          ≡ (if s.written then vs else []) ++ o.extra
    added_values s l o none_held =
        live-append_line false s.out l ∙ rw (o.target, none_held) (append-nil _ ∙ o.values)

    added_target :
        (s : Merge) (l : Line) (o : IsMerged s)
        → target_after fold section false (s.out ++ l ∷ [])
          ≡ target_next fold section s.in_target l.body
    added_target s l o = target_after-append fold section false s.out (l ∷ []) ∙ rw o.target refl

    enter-IsMerged :
        (s : Merge) (l : Line)
        → is_section fold section l.body ≡ true
        → IsMerged s
        → IsMerged (record s { out = s.out ++ l ∷ []; in_target = true; section_seen = true })
    enter-IsMerged s l h o = record {
      extra = o.extra;
      target = added_target s l o ∙ rw h refl;
      values = added_values s l o (line_values-header s.in_target l.body (rw h refl));
      bounded = o.bounded;
      seen = inl refl;
      placed = inl refl;
    }

    -- nothing was read as long as the block is not written
    pub unread :
        (s : Merge) (o : IsMerged s) → s.written ≡ false → live fold section value false s.out ≡ []
    unread s o w = elim o.bounded [
      | inl (wrote, e) ↦ ground arith
      | inr e ↦ o.values ∙ rw (w, e) refl
    ]

    leave-IsMerged :
        (s : Merge) (l : Line)
        → is_section fold section l.body ≡ false
        → is_any_section l.body ≡ true
        → IsBlock fold section value block vs
        → IsMerged s
        → IsMerged (leave fold section once matches block l s)
    leave-IsMerged s l h a fits o =
        let quiet : is_plain fold section l.body ≡ false = rw (h, a) refl in
        elim (Bool-cases (s.in_target && (not s.written && not (is_empty block)))) [
          | inl now ↦
              let on : s.in_target ≡ true = ground arith in
              let w : s.written ≡ false = ground arith in
              let (v, t) =
                live-inject fold section value false block vs s.out fits (o.target ∙ on)
                  (unread s o w) in
              let m : IsMerged (record s {
                out = inject block s.out ++ l ∷ [];
                in_target = false;
                written = true;
              }) =
                record {
                  extra = [];
                  target =
                      target_after-append fold section false (inject block s.out) (l ∷ [])
                      ∙ rw (t, h, a) refl;
                  values =
                      live-append_line false (inject block s.out) l
                      ∙ rw
                          (
                            v,
                            line_values-header
                                (target_after fold section false (inject block s.out)) l.body quiet,
                          )
                          refl;
                  bounded = inr refl;
                  seen = elim o.seen [ inl e ↦ inl e | inr (off, e) ↦ ground arith ];
                  placed = inr (inl refl);
                } in
              rw now m
          | inr later ↦
              let m : IsMerged (record s { out = s.out ++ l ∷ []; in_target = false }) = record {
                extra = o.extra;
                target = added_target s l o ∙ rw (h, a) refl;
                values = added_values s l o (line_values-header s.in_target l.body quiet);
                bounded = o.bounded;
                seen = elim o.seen [ inl e ↦ inl e | inr (off, e) ↦ inr (refl, e) ];
                placed = inr (elim o.placed [ inl on ↦ ground arith | inr e ↦ e ]);
              } in
              rw later m
        ]

    quiet-IsMerged :
        (s : Merge) (l : Line)
        → is_plain fold section l.body ≡ true
        → line_values fold section value s.in_target l.body ≡ []
        → IsMerged s
        → IsMerged (record s { out = s.out ++ l ∷ [] })
    quiet-IsMerged s l p none_held o = record {
      extra = o.extra;
      target = added_target s l o ∙ target_next-plain fold section s.in_target l.body p;
      values = added_values s l o none_held;
      bounded = o.bounded;
      seen = o.seen;
      placed = o.placed;
    }

    other-IsMerged :
        (s : Merge) (l : Line)
        → is_plain fold section l.body ≡ true
        → ((t : Text) → matches t ≡ false → value t ≡ none)
        → s.in_target && (not (once && s.written) && matches l.body) ≡ false
        → IsMerged s
        → IsMerged (record s { out = s.out ++ l ∷ [] })
    other-IsMerged s l p sub unmatched o = elim (Bool-cases s.in_target) [
      | inr off ↦ quiet-IsMerged s l p (rw off refl) o
      | inl on ↦ elim (Bool-cases (once && s.written)) [
        | inl done ↦
            let held = line_values fold section value s.in_target l.body in
            record {
              extra = o.extra ++ held;
              target = added_target s l o ∙ target_next-plain fold section s.in_target l.body p;
              values =
                  live-append_line false s.out l
                  ∙ rw (o.target, o.values)
                      (append_assoc (if s.written then vs else []) o.extra held);
              bounded = inl (ground arith);
              seen = o.seen;
              placed = o.placed;
            }
        | inr first ↦
            let miss : matches l.body ≡ false = ground arith in
            quiet-IsMerged s l p (rw (on, p, sub l.body miss) refl) o
      ]
    ]

    if-IsMerged :
        (b : Bool) (s r : Merge)
        → (b ≡ true → IsMerged s)
        → (b ≡ false → IsMerged r)
        → IsMerged (if b then s else r)
    if-IsMerged true s r then_s else_r = then_s refl
    if-IsMerged false s r then_s else_r = else_r refl

    replace-IsMerged :
        (s : Merge)
        → s.in_target ≡ true
        → IsBlock fold section value block vs
        → IsMerged s
        → IsMerged (replace fold section once matches block s)
    replace-IsMerged s on fits o =
        if-IsMerged s.written s _ (λ w. o)
          (λ w.
            let m : IsMerged (record s { out = s.out ++ block; written = true }) = record {
              extra = [];
              target =
                  target_after-append fold section false s.out block
                  ∙ target_after-IsBlock fold section value _ fits
                  ∙ o.target;
              values =
                  live-append fold section value false s.out block
                  ∙ rw (unread s o w, o.target, on) (fits.held ∙ sym (append-nil vs));
              bounded = inr refl;
              seen = elim o.seen [ inl e ↦ inl e | inr (off, e) ↦ ground arith ];
              placed = inl on;
            } in
            m)

    merge_line-IsMerged :
        (s : Merge) (l : Line)
        → ((t : Text) → matches t ≡ false → value t ≡ none)
        → IsBlock fold section value block vs
        → IsMerged s
        → IsMerged (merge_line fold section once matches block s l)
    unfolding merge_line
    merge_line-IsMerged s l sub fits o = elim (Bool-cases (is_section fold section l.body)) [
      | inl h ↦ rw h (enter-IsMerged s l h o)
      | inr h ↦ elim (Bool-cases (is_any_section l.body)) [
        | inl a ↦ rw (h, a) (leave-IsMerged s l h a fits o)
        | inr a ↦ elim (Bool-cases (s.in_target && (not (once && s.written) && matches l.body))) [
          | inl m ↦ rw (h, a, m) (replace-IsMerged s (ground arith) fits o)
          | inr m ↦ rw (h, a, m) (other-IsMerged s l (rw (h, a) refl) sub m o)
        ]
      ]
    ]

    pub merge_lines-IsMerged :
        (s : Merge) (ls : List Line)
        → ((t : Text) → matches t ≡ false → value t ≡ none)
        → IsBlock fold section value block vs
        → IsMerged s
        → IsMerged (merge_lines fold section once matches block s ls)
    unfolding merge_lines
    merge_lines-IsMerged s [] sub fits o = o
    merge_lines-IsMerged s (l ∷ ls) sub fits o =
        merge_lines-IsMerged (merge_line fold section once matches block s l) ls sub fits
          (merge_line-IsMerged s l sub fits o)
