-- ===== src/Ini/FinishLaws.antt =====
-- What a reader collects from a merge that is brought to its end.
use pelican_egg_dune_awakeni.Base.{
  ℕ, ◌≡◌, inl, inr, refl, ap, sym, ◌∙◌, Bool, true, false, not, ◌&&◌, List, [], ◌∷◌, ◌++◌, Option,
  Text, Bool-cases, is_empty, arith,
}
use mathlib.Core.List.{append-nil}
use pelican_egg_dune_awakeni.Ini.Collect.{
  target_after, target_after-close_last, live, live-append, live-close_last, IsBlock,
}
use pelican_egg_dune_awakeni.Ini.Blocks.{header-is_section, is_section-nil}
use pelican_egg_dune_awakeni.Ini.Lines.{Line, is_any_section}
use pelican_egg_dune_awakeni.Ini.Merge.{
  Merge, written_line, header_line, close_last, live_values, new_section, finish_keyed,
  finish_block,
}
use pelican_egg_dune_awakeni.Ini.MergeLaws.{IsMerged, unread}

module _ (fold : ℕ → ℕ) (section : Text) where
  module _ (value : Text → Option Text) (block : List Line) (vs : List Text) where
    -- a block after the closed lines, under the section or under a new one
    live-close_block :
        (out : List Line)
        → IsBlock fold section value block vs
        → live fold section value false out ≡ []
        → target_after fold section false out ≡ true
        → live fold section value false (close_last out ++ block) ≡ vs
    live-close_block out fits e t =
        live-append fold section value false (close_last out) block
        ∙ rw
            (
              live-close_last fold section value false out,
              target_after-close_last fold section value false out,
              e,
              t,
            )
            fits.held

    live-new_section :
        (out : List Line)
        → IsBlock fold section value block vs
        → live fold section value false out ≡ []
        → target_after fold section false out ≡ false
        → live fold section value false (new_section fold section block out) ≡ vs
    unfolding live_values is_any_section
    live-new_section out fits e t =
        live-append fold section value false (close_last out)
          (written_line [] ∷ header_line section ∷ block)
        ∙ rw
            (
              live-close_last fold section value false out,
              target_after-close_last fold section value false out,
              e,
              t,
            )
            (rw (header-is_section fold section, is_section-nil fold section) fits.held)

    pub finish_keyed-live :
        (once : Bool) (matches : Text → Bool) (s : Merge)
        → IsBlock fold section value block vs
        → is_empty block ≡ false
        → (o : IsMerged fold section value once matches block vs s)
        → live fold section value false (finish_keyed fold section block s) ≡ vs ++ o.extra
    finish_keyed-live once matches s fits some_block o = elim (Bool-cases s.written) [
      | inl w ↦
          let there : s.section_seen ≡ true = elim o.seen [
            | inl e ↦ e
            | inr (off, e) ↦ ground arith
          ] in
          rw (there, w) (o.values ∙ rw w refl)
      | inr w ↦
          let nothing = unread fold section value once matches block vs s o w in
          let bare : o.extra ≡ [] = elim o.bounded [ inl (x, y) ↦ ground arith | inr e ↦ e ] in
          let only : vs ≡ vs ++ o.extra = sym (append-nil vs) ∙ ap (λ t. vs ++ t) (sym bare) in
          elim (Bool-cases s.section_seen) [
            | inr unseen ↦
                let off : s.in_target ≡ false = elim o.seen [
                  | inl e ↦ ground arith
                  | inr (e, x) ↦ e
                ] in
                rw unseen (live-new_section s.out fits nothing (o.target ∙ off) ∙ only)
            | inl there ↦
                let on : s.in_target ≡ true = elim o.placed [ inl e ↦ e | inr e ↦ ground arith ] in
                rw (there, w) (live-close_block s.out fits nothing (o.target ∙ on) ∙ only)
          ]
    ]

    pub finish_block-live :
        (matches : Text → Bool) (lines : List Line) (s : Merge)
        → IsBlock fold section value block vs
        → is_empty block ≡ false
        → IsMerged fold section value false matches block vs s
        → live fold section value false (finish_block fold section lines block s) ≡ vs
    finish_block-live matches lines s fits some_block o =
        let bare : o.extra ≡ [] = elim o.bounded [ inl (x, y) ↦ ground arith | inr e ↦ e ] in
        elim (Bool-cases s.section_seen) [
          | inr unseen ↦
              let off : s.in_target ≡ false = elim o.seen [
                | inl e ↦ ground arith
                | inr (e, x) ↦ e
              ] in
              let w : s.written ≡ false = elim o.seen [ inl e ↦ ground arith | inr (x, e) ↦ e ] in
              rw (unseen, some_block)
                (live-new_section s.out fits
                  (unread fold section value false matches block vs s o w) (o.target ∙ off))
          | inl there ↦ elim (Bool-cases (s.in_target && (not s.written && not (is_empty block)))) [
            | inl now ↦
                rw (there, now)
                  (live-close_block s.out fits
                    (unread fold section value false matches block vs s o (ground arith))
                    (o.target ∙ ground arith))
            | inr later ↦
                let w : s.written ≡ true = elim o.placed [
                  | inl e ↦ ground arith
                  | inr e ↦ ground arith
                ] in
                rw (there, later) (o.values ∙ rw (w, bare) (append-nil vs))
          ]
        ]
