-- ===== src/Ini/Collect.antt =====
-- The values that a reader collects from lines that are put together.
use pelican_egg_dune_awakeni.Base.{
  ℕ, ◌≡◌, inl, inr, refl, ap, sym, subst, ◌∙◌, Bool, true, false, ◌&&◌, ◌==◌, List, [], ◌∷◌, ◌++◌,
  Option, Text, is_space, All, Bool-cases, Option-cases, if◌then◌else◌, arith,
}
use mathlib.Core.List.{append_assoc, append-nil}
use pelican_egg_dune_awakeni.Ini.Lines.{Line, is_section, is_any_section, all_space}
use pelican_egg_dune_awakeni.Ini.Merge.{
  target_next, is_plain, add_value, live_values, inject, close_last,
}

-- a blank line is no header
space-bracket : (c : ℕ) → is_space c ≡ true → c == 91 ≡ false
unfolding is_space
space-bracket c h = ground arith

is_section-all_space :
    (fold : ℕ → ℕ) (name t : Text) → all_space t ≡ true → is_section fold name t ≡ false
unfolding is_section
is_section-all_space fold name [] h = refl
is_section-all_space fold name (c ∷ cs) h =
    let space : is_space c ≡ true = ground arith in
    let rest : all_space cs ≡ true = ground arith in
    ground (arith, space-bracket c space, is_section-all_space fold name cs rest)

is_any_section-all_space : (t : Text) → all_space t ≡ true → is_any_section t ≡ false
unfolding is_any_section
is_any_section-all_space [] h = refl
is_any_section-all_space (c ∷ cs) h =
    let space : is_space c ≡ true = ground arith in
    let rest : all_space cs ≡ true = ground arith in
    ground (arith, space-bracket c space, is_any_section-all_space cs rest)

append-empty : {A : Type 0} → (xs ys : List A) → xs ++ ys ≡ [] → (xs ≡ []) × (ys ≡ [])
append-empty [] ys e = (refl, e)
append-empty (x ∷ xs) ys e = ground arith

module _ (fold : ℕ → ℕ) (section : Text) where
  pub is_plain-all_space : (t : Text) → all_space t ≡ true → is_plain fold section t ≡ true
  is_plain-all_space t h =
      rw (is_section-all_space fold section t h, is_any_section-all_space t h) refl

  -- whether the end of the lines lies under the section
  abbrev pub target_after : Bool → List Line → Bool
  target_after b [] = b
  target_after b (l ∷ ls) = target_after (target_next fold section b l.body) ls

  pub target_after-append :
      (b : Bool) (xs ys : List Line)
      → target_after b (xs ++ ys) ≡ target_after (target_after b xs) ys
  target_after-append b [] ys = refl
  target_after-append b (l ∷ ls) ys = target_after-append (target_next fold section b l.body) ls ys

  pub target_next-plain :
      (b : Bool) (t : Text) → is_plain fold section t ≡ true → target_next fold section b t ≡ b
  target_next-plain b t h = ground arith

  module _ (value : Text → Option Text) where
    abbrev pub live : Bool → List Line → List Text
    live b ls = live_values fold section value b ls

    -- what one line adds
    abbrev pub line_values : Bool → Text → List Text
    line_values b t = if b && is_plain fold section t then add_value (value t) [] else []

    pub live-step :
        (b : Bool) (l : Line) (ls : List Line)
        → live b (l ∷ ls) ≡ line_values b l.body ++ live (target_next fold section b l.body) ls
    unfolding live_values
    live-step b l ls = elim (Bool-cases (b && is_plain fold section l.body)) [
      | inr e ↦ rw e refl
      | inl e ↦ elim (Option-cases (value l.body)) [
        | inl n ↦ rw (e, n) refl
        | inr (v, s) ↦ rw (e, s) refl
      ]
    ]

    pub live-append :
        (b : Bool) (xs ys : List Line)
        → live b (xs ++ ys) ≡ live b xs ++ live (target_after b xs) ys
    unfolding live_values
    live-append b [] ys = refl
    live-append b (l ∷ ls) ys =
        let c = target_next fold section b l.body in
        live-step b l (ls ++ ys)
        ∙ ap (λ t. line_values b l.body ++ t) (live-append c ls ys)
        ∙ sym (append_assoc (line_values b l.body) (live c ls) (live (target_after c ls) ys))
        ∙ ap (λ t. t ++ live (target_after c ls) ys) (sym (live-step b l ls))

    live-first :
        (b : Bool) (l : Line) (ls : List Line)
        → live b (l ∷ ls) ≡ []
        → (line_values b l.body ≡ []) × (live (target_next fold section b l.body) ls ≡ [])
    live-first b l ls e = append-empty _ _ (sym (live-step b l ls) ∙ e)

    -- no value is lost or gained by the line end of the last line
    pub live-close_last : (b : Bool) (ls : List Line) → live b (close_last ls) ≡ live b ls
    unfolding close_last live_values
    live-close_last b [] = refl
    live-close_last b (l ∷ []) = ground arith
    live-close_last b (l ∷ m ∷ ls) =
        let c = target_next fold section b l.body in
        live-step b l (close_last (m ∷ ls))
        ∙ ap (λ t. line_values b l.body ++ t) (live-close_last c (m ∷ ls))
        ∙ sym (live-step b l (m ∷ ls))

    pub target_after-close_last :
        (b : Bool) (ls : List Line) → target_after b (close_last ls) ≡ target_after b ls
    unfolding close_last
    target_after-close_last b [] = refl
    target_after-close_last b (l ∷ []) = ground arith
    target_after-close_last b (l ∷ m ∷ ls) =
        target_after-close_last (target_next fold section b l.body) (m ∷ ls)

    -- lines under the section that are not headers, and the values they hold
    pub record IsBlock (block : List Line) (vs : List Text) : Type 0 where
      pub plain : All (λ l. is_plain fold section l.body ≡ true) block
      pub held : live true block ≡ vs

    target_after-plain :
        (b : Bool) (block : List Line)
        → All (λ l. is_plain fold section l.body ≡ true) block
        → target_after b block ≡ b
    target_after-plain b [] h = refl
    target_after-plain b (l ∷ ls) (p, h) =
        rw (target_next-plain b l.body p) (target_after-plain b ls h)

    pub target_after-IsBlock :
        (b : Bool) {block : List Line} {vs : List Text}
        → IsBlock block vs
        → target_after b block ≡ b
    target_after-IsBlock b {block} h = target_after-plain b block h.plain

    -- a block that is put at the end of a section which holds no value
    pub live-inject :
        (b : Bool) (block : List Line) (vs : List Text) (out : List Line)
        → IsBlock block vs
        → target_after b out ≡ true
        → live b out ≡ []
        → (live b (inject block out) ≡ vs) × (target_after b (inject block out) ≡ true)
    unfolding inject
    live-inject b block vs [] h e n =
        (subst (λ c. live c block ≡ vs) (sym e) h.held, target_after-IsBlock b h ∙ e)
    live-inject b block vs (l ∷ []) h e n =
        let (first, later) = live-first b l [] n in
        elim (Bool-cases (all_space l.body)) [
          | inl blank ↦
              let on : b ≡ true =
                sym (target_next-plain b l.body (is_plain-all_space l.body blank)) ∙ e in
              rw blank (
                live-append b block (l ∷ [])
                    ∙ rw (target_after-IsBlock b h, n, on) (append-nil (live true block) ∙ h.held),
                target_after-append b block (l ∷ []) ∙ rw (target_after-IsBlock b h) e,
              )
          | inr text ↦ rw text (
            live-step b l block ∙ rw (first, e) h.held,
            target_after-IsBlock (target_next fold section b l.body) h ∙ e,
          )
        ]
    live-inject b block vs (l ∷ m ∷ ls) h e n =
        let c = target_next fold section b l.body in
        let (first, later) = live-first b l (m ∷ ls) n in
        let (ih, t) = live-inject c block vs (m ∷ ls) h e later in
        (live-step b l (inject block (m ∷ ls)) ∙ rw (first, ih) refl, t)
