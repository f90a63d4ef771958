-- ===== src/Ini/CutLaws.antt =====
-- What a reader sees of lines that are put together and cut again.
use pelican_egg_dune_awakeni.Base.{
  ℕ, ◌==◌, ◌≡◌, inl, inr, refl, ap, sym, ◌∙◌, Bool, true, false, ◌&&◌, List, [], ◌∷◌, ◌++◌, Text,
  Bool-cases, is_empty, All, arith,
}
use mathlib.Core.List.{append-nil}
use pelican_egg_dune_awakeni.Ini.Cut.{is_end, has_end, is_feed, end_line, add_first, cut, join}
use pelican_egg_dune_awakeni.Ini.Lines.{Line}

-- one character, or one and a line feed; only the last line of a text may go without
abbrev pub IsEnding : Bool → Text → Type 0
IsEnding last [] = last ≡ true
IsEnding last (c ∷ []) = is_end c ≡ true
IsEnding last (c ∷ d ∷ []) = (is_end c ≡ true) × (d ≡ 10)
IsEnding last (c ∷ d ∷ e ∷ cs) = ⊥

abbrev pub IsLine : Bool → Line → Type 0
IsLine last l = (has_end l.body ≡ false) × IsEnding last l.ending

-- lines that all end
abbrev pub AllEnd : List Line → Type 0
AllEnd ls = All (IsLine false) ls

-- lines that all end, but perhaps for the last one
abbrev pub AreLines : List Line → Type 0
AreLines [] = Unit
AreLines (l ∷ ls) = IsLine (is_empty ls) l × AreLines ls

IsEnding-weaken : (b : Bool) (t : Text) → IsEnding false t → IsEnding b t
IsEnding-weaken b [] h = ground arith
IsEnding-weaken b (c ∷ []) h = h
IsEnding-weaken b (c ∷ d ∷ []) h = h
IsEnding-weaken b (c ∷ d ∷ e ∷ cs) h = h

pub IsLine-weaken : (b : Bool) (l : Line) → IsLine false l → IsLine b l
IsLine-weaken b l (h, e) = (h, IsEnding-weaken b l.ending e)

pub AreLines-append : (xs ys : List Line) → AllEnd xs → AreLines ys → AreLines (xs ++ ys)
AreLines-append [] ys h k = k
AreLines-append (x ∷ xs) ys (a, h) k =
    (IsLine-weaken (is_empty (xs ++ ys)) x a, AreLines-append xs ys h k)

pub AllEnd-append : (xs ys : List Line) → AllEnd xs → AllEnd ys → AllEnd (xs ++ ys)
AllEnd-append [] ys h k = k
AllEnd-append (x ∷ xs) ys (a, h) k = (a, AllEnd-append xs ys h k)

pub AllEnd-AreLines : (ls : List Line) → AllEnd ls → AreLines ls
AllEnd-AreLines [] h = tt
AllEnd-AreLines (l ∷ ls) (a, h) = (IsLine-weaken (is_empty ls) l a, AllEnd-AreLines ls h)

end_line-AreLines :
    (c : ℕ) (ls : List Line) → is_end c ≡ true → AreLines ls → AreLines (end_line c ls)
unfolding end_line
end_line-AreLines c [] h k = ((refl, h), tt)
end_line-AreLines c (l ∷ ls) h k = elim (Bool-cases (c == 13 && is_feed l)) [
  | inl e ↦ rw e ((refl, (refl, refl)), k.1)
  | inr e ↦ rw e ((refl, h), k)
]

add_first-AreLines :
    (c : ℕ) (ls : List Line) → is_end c ≡ false → AreLines ls → AreLines (add_first c ls)
add_first-AreLines c [] h k = ((rw h refl, refl), tt)
add_first-AreLines c (l ∷ ls) h ((a, e), k) = ((rw h a, e), k)

pub cut-AreLines : (t : Text) → AreLines (cut t)
unfolding cut
cut-AreLines [] = tt
cut-AreLines (c ∷ cs) = elim (Bool-cases (is_end c)) [
  | inl e ↦ rw e (end_line-AreLines c (cut cs) e (cut-AreLines cs))
  | inr e ↦ rw e (add_first-AreLines c (cut cs) e (cut-AreLines cs))
]

-- a text in front of the first line
abbrev at_front : Text → List Line → List Line
at_front [] ls = ls
at_front (c ∷ cs) ls = add_first c (at_front cs ls)

at_front-cons :
    (t : Text) (l : Line) (ls : List Line)
    → at_front t (l ∷ ls) ≡ record l { body = t ++ l.body } ∷ ls
at_front-cons [] l ls = refl
at_front-cons (c ∷ cs) l ls = rw (at_front-cons cs l ls) refl

at_front-nil :
    (c : ℕ) (cs : Text) → at_front (c ∷ cs) [] ≡ record { body = c ∷ cs; ending = [] } ∷ []
at_front-nil c [] = refl
at_front-nil c (d ∷ ds) = rw (at_front-nil d ds) refl

cut-append : (t u : Text) → has_end t ≡ false → cut (t ++ u) ≡ at_front t (cut u)
unfolding cut
cut-append [] u h = refl
cut-append (c ∷ cs) u h =
    let e : is_end c ≡ false = ground arith in
    let rest : has_end cs ≡ false = ground arith in rw (e, cut-append cs u rest) refl

cut-end : (c : ℕ) (t : Text) → is_end c ≡ true → cut (c ∷ t) ≡ end_line c (cut t)
unfolding cut
cut-end c t h = rw h refl

-- A reader goes over the bodies of the lines with a state, and nothing is on a blank line.
module _ {B X : Type 0} (next : B → Text → B) (step : B → Text → X → X) (reader : B → List Line → X)
    (one_line : (b : B) (l : Line) (ls : List Line)
      → reader b (l ∷ ls) ≡ step b l.body (reader (next b l.body) ls))
    (next_blank : (b : B) → next b [] ≡ b) (step_blank : (b : B) (x : X) → step b [] x ≡ x) where
  blank_line :
      (b : B) (t : Text) (ls : List Line)
      → reader b (record { body = []; ending = t } ∷ ls) ≡ reader b ls
  blank_line b t ls = one_line b _ ls ∙ step_blank b _ ∙ ap (λ c. reader c ls) (next_blank b)

  -- the line of a line feed, by its parts
  feed_line :
      (b : B) (t e : Text) (ls : List Line)
      → is_feed (record { body = t; ending = e }) ≡ true
      → reader b (record { body = t; ending = e } ∷ ls) ≡ reader b ls
  feed_line b [] e ls h = blank_line b e ls
  feed_line b (c ∷ cs) e ls h = ground arith

  front_line :
      (b : B) (t e : Text) (ls : List Line)
      → reader b (at_front t (record { body = []; ending = e } ∷ ls))
        ≡ step b t (reader (next b t) ls)
  front_line b t e ls =
      ap (reader b) (at_front-cons t _ ls)
      ∙ one_line b _ ls
      ∙ ap (λ u. step b u (reader (next b u) ls)) (append-nil t)

  reader-end_line :
      (b : B) (t : Text) (c : ℕ) (ls : List Line)
      → reader b (at_front t (end_line c ls)) ≡ step b t (reader (next b t) ls)
  unfolding end_line
  reader-end_line b t c [] = front_line b t (c ∷ []) []
  reader-end_line b t c (l ∷ ls) = elim (Bool-cases (c == 13 && is_feed l)) [
    | inr e ↦ rw e (front_line b t (c ∷ []) (l ∷ ls))
    | inl e ↦
        let feed : is_feed l ≡ true = ground arith in
        rw (e, feed_line (next b t) l.body l.ending ls feed) (front_line b t (13 ∷ 10 ∷ []) ls)
  ]

  cut_line :
      (b : B) (u e t : Text)
      → has_end u ≡ false
      → IsEnding false e
      → reader b (cut (u ++ (e ++ t))) ≡ step b u (reader (next b u) (cut t))
  cut_line b u [] t h k = ground arith
  cut_line b u (c ∷ []) t h k =
      ap (reader b) (cut-append u (c ∷ t) h ∙ ap (at_front u) (cut-end c t k))
      ∙ reader-end_line b u c (cut t)
  cut_line b u (c ∷ d ∷ []) t h (k, f) =
      let feed : is_end d ≡ true = ground arith in
      ap (reader b) (
        cut-append u (c ∷ d ∷ t) h
        ∙ ap (at_front u) (cut-end c (d ∷ t) k ∙ ap (end_line c) (cut-end d t feed)))
      ∙ reader-end_line b u c (end_line d (cut t))
      ∙ ap (step b u) (
          reader-end_line (next b u) [] d (cut t)
          ∙ step_blank (next b u) _
          ∙ ap (λ x. reader x (cut t)) (next_blank (next b u)))
  cut_line b u (c ∷ d ∷ e ∷ cs) t h k = absurd k

  cut_last :
      (b : B) (u e : Text)
      → has_end u ≡ false
      → IsEnding true e
      → reader b (cut (u ++ (e ++ []))) ≡ reader b (record { body = u; ending = e } ∷ [])
  unfolding cut
  cut_last b [] [] h k = sym (blank_line b [] [])
  cut_last b (c ∷ cs) [] h k = ap (reader b) (cut-append (c ∷ cs) [] h ∙ at_front-nil c cs)
  cut_last b u (c ∷ []) h k = cut_line b u (c ∷ []) [] h k ∙ sym (one_line b _ [])
  cut_last b u (c ∷ d ∷ []) h k = cut_line b u (c ∷ d ∷ []) [] h k ∙ sym (one_line b _ [])
  cut_last b u (c ∷ d ∷ e ∷ cs) h k = absurd k

  -- Lines that are put together and cut again read the same.
  pub reader-cut : (b : B) (ls : List Line) → AreLines ls → reader b (cut (join ls)) ≡ reader b ls
  unfolding cut
  reader-cut b [] h = refl
  reader-cut b (l ∷ []) ((h, e), k) = cut_last b l.body l.ending h e
  reader-cut b (l ∷ m ∷ ls) ((h, e), k) =
      cut_line b l.body l.ending (join (m ∷ ls)) h e
      ∙ ap (step b l.body) (reader-cut (next b l.body) (m ∷ ls) k)
      ∙ sym (one_line b l (m ∷ ls))

feed-join :
    (t e : Text) (ls : List Line)
    → is_feed (record { body = t; ending = e }) ≡ true
    → join (record { body = t; ending = e } ∷ ls) ≡ 10 ∷ join ls
feed-join [] [] ls h = ground arith
feed-join [] (c ∷ []) ls h = ground arith
feed-join [] (c ∷ d ∷ cs) ls h = ground arith
feed-join (c ∷ cs) e ls h = ground arith

end_line-join : (c : ℕ) (ls : List Line) → join (end_line c ls) ≡ c ∷ join ls
unfolding end_line
end_line-join c [] = refl
end_line-join c (l ∷ ls) = elim (Bool-cases (c == 13 && is_feed l)) [
  | inr e ↦ rw e refl
  | inl e ↦
      let feed : is_feed l ≡ true = ground arith in
      let return : c ≡ 13 = ground arith in rw (e, feed-join l.body l.ending ls feed, return) refl
]

add_first-join : (c : ℕ) (ls : List Line) → join (add_first c ls) ≡ c ∷ join ls
add_first-join c [] = refl
add_first-join c (l ∷ ls) = refl

-- No character is lost by cutting.
join-cut : (t : Text) → join (cut t) ≡ t
unfolding cut
join-cut [] = refl
join-cut (c ∷ cs) = elim (Bool-cases (is_end c)) [
  | inl e ↦ rw e (end_line-join c (cut cs) ∙ ap (λ t. c ∷ t) (join-cut cs))
  | inr e ↦ rw e (add_first-join c (cut cs) ∙ ap (λ t. c ∷ t) (join-cut cs))
]
