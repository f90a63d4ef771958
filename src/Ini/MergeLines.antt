-- ===== src/Ini/MergeLines.antt =====
-- What the upserts write are lines: each has its end, and only the last one may go without.
use pelican_egg_dune_awakeni.Base.{
  ℕ, ◌==◌, ◌≡◌, ◌⊎◌, inl, inr, refl, subst, sym, Bool, true, false, not, ◌&&◌, List, [], ◌∷◌, ◌++◌,
  Option, none, some, Text, Bool-cases, is_empty, is_some, All, arith, if◌then◌else◌,
}
use pelican_egg_dune_awakeni.Ini.Cut.{has_end}
use pelican_egg_dune_awakeni.Ini.CutLaws.{
  IsEnding, IsLine, AllEnd, AreLines, IsLine-weaken, AreLines-append, AllEnd-append,
  AllEnd-AreLines,
}
use pelican_egg_dune_awakeni.Ini.Lines.{
  Line, keyed_value, comment_or_space, is_section, is_any_section, all_space,
}
use pelican_egg_dune_awakeni.Ini.Merge.{
  Merge, written_line, key_line, header_line, array_block, ends_newline, close_last, inject, leave,
  merge_line, merge_lines, new_section, finish_keyed, finish_block, replace_first, keep_line,
  or_appended, flat_lines,
}

has_end-append : (s t : Text) → has_end s ≡ false → has_end t ≡ false → has_end (s ++ t) ≡ false
has_end-append [] t h k = k
has_end-append (c ∷ s) t h k = ground (arith, has_end-append s t)

pub key_line-IsLine :
    (key v : Text) → has_end key ≡ false → has_end v ≡ false → IsLine false (key_line key v)
key_line-IsLine key v h k = (has_end-append key (61 ∷ v) h k, refl)

pub array_block-AllEnd :
    (key : Text) (vs : List Text)
    → has_end key ≡ false
    → All (λ v. has_end v ≡ false) vs
    → AllEnd (array_block key vs)
array_block-AllEnd key [] h k = tt
array_block-AllEnd key (v ∷ vs) h (a, k) =
    (key_line-IsLine (43 ∷ key) v h a, array_block-AllEnd key vs h k)

IsEnding-closed :
    (b t : Text)
    → has_end b ≡ false
    → IsEnding true t
    → IsLine false (
        if ends_newline t
        then record { body = b; ending = t }
        else record { body = b; ending = t ++ 10 ∷ [] })
IsEnding-closed b [] h e = (h, refl)
IsEnding-closed b (c ∷ []) h e = elim (Bool-cases (c == 10)) [
  | inl f ↦ rw f (h, e)
  | inr f ↦ rw f (h, (e, refl))
]
IsEnding-closed b (c ∷ d ∷ []) h (e, f) = rw f (h, (e, refl))
IsEnding-closed b (c ∷ d ∷ f ∷ cs) h e = absurd e

pub close_last-AllEnd : (ls : List Line) → AreLines ls → AllEnd (close_last ls)
unfolding close_last
close_last-AllEnd [] h = tt
close_last-AllEnd (l ∷ []) ((h, e), k) = (IsEnding-closed l.body l.ending h e, tt)
close_last-AllEnd (l ∷ m ∷ ls) (h, k) = (h, close_last-AllEnd (m ∷ ls) k)

inject-AllEnd : (block out : List Line) → AllEnd block → AllEnd out → AllEnd (inject block out)
unfolding inject
inject-AllEnd block [] h k = h
inject-AllEnd block (l ∷ []) h k = elim (Bool-cases (all_space l.body)) [
  | inl e ↦ rw e (AllEnd-append block (l ∷ []) h k)
  | inr e ↦ rw e (k.0, h)
]
inject-AllEnd block (l ∷ m ∷ ls) h (a, k) = (a, inject-AllEnd block (m ∷ ls) h k)

module _ (fold : ℕ → ℕ) (section : Text) (once : Bool) (matches : Text → Bool) (block : List Line)
    (ends : AllEnd block) where
  -- a line goes to the end of lines that all end, or gives way to the block
  abbrev Adds : Line → List Line → Type 0
  Adds l out = AllEnd out ⊎ ((xs : List Line) × AllEnd xs × (out ≡ xs ++ l ∷ []))

  leave-Adds :
      (l : Line) (s : Merge) → AllEnd s.out → Adds l (leave fold section once matches block l s).out
  leave-Adds l s h = elim (Bool-cases (s.in_target && (not s.written && not (is_empty block)))) [
    | inl e ↦ rw e (inr (inject block s.out, inject-AllEnd block s.out ends h, refl))
    | inr e ↦ rw e (inr (s.out, h, refl))
  ]

  replace-Adds :
      (l : Line) (s : Merge)
      → AllEnd s.out
      → Adds l (if s.written then s else record s { out = s.out ++ block; written = true }).out
  replace-Adds l s h = elim (Bool-cases s.written) [
    | inl e ↦ rw e (inl h)
    | inr e ↦ rw e (inl (AllEnd-append s.out block h ends))
  ]

  merge_line-Adds :
      (s : Merge) (l : Line)
      → AllEnd s.out
      → Adds l (merge_line fold section once matches block s l).out
  unfolding merge_line
  merge_line-Adds s l h =
      let hit = s.in_target && (not (once && s.written) && matches l.body) in
      elim (Bool-cases (is_section fold section l.body)) [
        | inl e ↦ rw e (inr (s.out, h, refl))
        | inr e ↦ elim (Bool-cases (is_any_section l.body)) [
          | inl f ↦ rw (e, f) (leave-Adds l s h)
          | inr f ↦ elim (Bool-cases hit) [
            | inl g ↦ rw (e, f, g) (replace-Adds l s h)
            | inr g ↦ rw (e, f, g) (inr (s.out, h, refl))
          ]
        ]
      ]

  Adds-AllEnd : (l : Line) (out : List Line) → IsLine false l → Adds l out → AllEnd out
  Adds-AllEnd l out h (inl k) = k
  Adds-AllEnd l out h (inr (xs, k, e)) = subst AllEnd (sym e) (AllEnd-append xs (l ∷ []) k (h, tt))

  Adds-AreLines : (l : Line) (out : List Line) → IsLine true l → Adds l out → AreLines out
  Adds-AreLines l out h (inl k) = AllEnd-AreLines out k
  Adds-AreLines l out h (inr (xs, k, e)) =
      subst AreLines (sym e) (AreLines-append xs (l ∷ []) k (h, tt))

  pub merge_lines-AreLines :
      (s : Merge) (ls : List Line)
      → AllEnd s.out
      → AreLines ls
      → AreLines (merge_lines fold section once matches block s ls).out
  unfolding merge_lines
  merge_lines-AreLines s [] h k = AllEnd-AreLines s.out h
  merge_lines-AreLines s (l ∷ []) h (a, k) = Adds-AreLines l _ a (merge_line-Adds s l h)
  merge_lines-AreLines s (l ∷ m ∷ ls) h (a, k) =
      merge_lines-AreLines (merge_line fold section once matches block s l) (m ∷ ls)
        (Adds-AllEnd l _ a (merge_line-Adds s l h)) k

module _ (fold : ℕ → ℕ) (section : Text) (block : List Line) (ends : AllEnd block) where
  closed-AreLines : (out : List Line) → AreLines out → AreLines (close_last out ++ block)
  closed-AreLines out k =
      AllEnd-AreLines (close_last out ++ block)
        (AllEnd-append (close_last out) block (close_last-AllEnd out k) ends)

  new_section-AreLines :
      (out : List Line)
      → has_end section ≡ false
      → AreLines out
      → AreLines (new_section fold section block out)
  new_section-AreLines out h k =
      let name : IsLine false (header_line section) =
        (has_end-append section (93 ∷ []) h refl, refl) in
      let new = written_line [] ∷ header_line section ∷ block in
      AllEnd-AreLines (close_last out ++ new)
        (AllEnd-append (close_last out) new (close_last-AllEnd out k) ((refl, refl), (name, ends)))

  pub finish_keyed-AreLines :
      (s : Merge)
      → has_end section ≡ false
      → AreLines s.out
      → AreLines (finish_keyed fold section block s)
  finish_keyed-AreLines s h k = elim (Bool-cases s.section_seen) [
    | inr e ↦ rw e (new_section-AreLines s.out h k)
    | inl e ↦ elim (Bool-cases s.written) [
      | inl f ↦ rw (e, f) k
      | inr f ↦ rw (e, f) (closed-AreLines s.out k)
    ]
  ]

  pub finish_block-AreLines :
      (lines : List Line) (s : Merge)
      → is_empty block ≡ false
      → has_end section ≡ false
      → AreLines s.out
      → AreLines (finish_block fold section lines block s)
  finish_block-AreLines lines s some_block h k = elim (Bool-cases s.section_seen) [
    | inr e ↦ rw (e, some_block) (new_section-AreLines s.out h k)
    | inl e ↦ elim (Bool-cases (s.in_target && (not s.written && not (is_empty block)))) [
      | inl f ↦ rw (e, f) (closed-AreLines s.out k)
      | inr f ↦ rw (e, f) k
    ]
  ]

module _ (fold : ℕ → ℕ) (key : Text) (new : Line) (ends : IsLine false new) where
  -- what a search for a line to replace gives
  abbrev Replaced : Option (List Line) → Type 0
  Replaced none = Unit
  Replaced (some ls) = AreLines ls

  keep_line-Replaced :
      (l : Line) (o : Option (List Line)) → IsLine false l → Replaced o → Replaced (keep_line l o)
  keep_line-Replaced l none h k = tt
  keep_line-Replaced l (some ls) h k = (IsLine-weaken (is_empty ls) l h, k)

  replace_first-Replaced : (ls : List Line) → AreLines ls → Replaced (replace_first fold key new ls)
  unfolding replace_first
  replace_first-Replaced [] h = tt
  replace_first-Replaced (l ∷ []) (a, h) =
      elim (Bool-cases (is_some (keyed_value comment_or_space fold key l.body))) [
        | inl e ↦ rw e (IsLine-weaken true new ends, tt)
        | inr e ↦ rw e tt
      ]
  replace_first-Replaced (l ∷ m ∷ ls) (a, h) =
      let later = replace_first-Replaced (m ∷ ls) h in
      elim (Bool-cases (is_some (keyed_value comment_or_space fold key l.body))) [
        | inl e ↦ rw e (ends, h)
        | inr e ↦ rw e (keep_line-Replaced l (replace_first fold key new (m ∷ ls)) a later)
      ]

  or_appended-AreLines :
      (ls : List Line) (o : Option (List Line))
      → AreLines ls
      → Replaced o
      → AreLines (or_appended new ls o)
  or_appended-AreLines ls none h k =
      AllEnd-AreLines (close_last ls ++ new ∷ [])
        (AllEnd-append (close_last ls) (new ∷ []) (close_last-AllEnd ls h) (ends, tt))
  or_appended-AreLines ls (some ms) h k = k

pub flat_lines-AreLines :
    (fold : ℕ → ℕ) (ls : List Line) (key v : Text)
    → has_end key ≡ false
    → has_end v ≡ false
    → AreLines ls
    → AreLines (flat_lines fold ls key v)
unfolding flat_lines
flat_lines-AreLines fold ls key v h k a =
    let ends = key_line-IsLine key v h k in
    or_appended-AreLines fold key (key_line key v) ends ls _ a
      (replace_first-Replaced fold key (key_line key v) ends ls a)
