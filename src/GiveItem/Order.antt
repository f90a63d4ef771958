-- ===== src/GiveItem/Order.antt =====
-- `sorted` of the stacks: a descending rearrangement.
use mathlib.Core.List.{Perm}
use mathlib.Core.List.Perm
use pelican_egg_dune_awakeni.Base.{
  ℕ, ◌≤◌, ◌≡◌, refl, List, [], ◌∷◌, inl, inr, leb, Bool-cases, arith,
}
use pelican_egg_dune_awakeni.GiveItem.Plan.{Stack, insert_stack, ordered}
use pelican_egg_dune_awakeni.GiveItem.Fill.{free}

-- all of `ss` are at most `n`
abbrev AtMost : ℕ → List Stack → Type 0
AtMost n [] = Unit
AtMost n (s ∷ ss) = (s.size ≤ n) × AtMost n ss

abbrev pub IsDescending : List Stack → Type 0
IsDescending [] = Unit
IsDescending (s ∷ ss) = AtMost s.size ss × IsDescending ss

AtMost-weaken : (a b : ℕ) (ss : List Stack) → a ≤ b → AtMost a ss → AtMost b ss
AtMost-weaken a b [] h k = tt
AtMost-weaken a b (s ∷ ss) h k = (omega arith, AtMost-weaken a b ss h k.1)

insert_stack-AtMost :
    (n : ℕ) (s : Stack) (ss : List Stack) → s.size ≤ n → AtMost n ss → AtMost n (insert_stack s ss)
unfolding insert_stack
insert_stack-AtMost n s [] h k = (h, tt)
insert_stack-AtMost n s (t ∷ ts) h k = ground (arith, insert_stack-AtMost n s ts h k.1)

insert_stack-IsDescending :
    (s : Stack) (ss : List Stack) → IsDescending ss → IsDescending (insert_stack s ss)
unfolding insert_stack
insert_stack-IsDescending s [] h = (tt, tt)
insert_stack-IsDescending s (t ∷ ts) h = elim (Bool-cases (leb t.size s.size)) [
  | inl e ↦ rw e ((ground arith, AtMost-weaken t.size s.size ts (ground arith) h.0), h)
  | inr e ↦
      rw e (insert_stack-AtMost t.size s ts (ground arith) h.0, insert_stack-IsDescending s ts h.1)
]

pub ordered-IsDescending : (ss : List Stack) → IsDescending (ordered ss)
unfolding ordered
ordered-IsDescending [] = tt
ordered-IsDescending (s ∷ ss) = insert_stack-IsDescending s _ (ordered-IsDescending ss)

insert_stack-perm : (s : Stack) (ss : List Stack) → Perm (insert_stack s ss) (s ∷ ss)
unfolding insert_stack
insert_stack-perm s [] = Perm.refl (s ∷ [])
insert_stack-perm s (t ∷ ts) = elim (Bool-cases (leb t.size s.size)) [
  | inl e ↦ rw e (Perm.refl _)
  | inr e ↦ rw e (Perm.trans (Perm.cons t (insert_stack-perm s ts)) (Perm.swap s t ts))
]

pub ordered-perm : (ss : List Stack) → Perm (ordered ss) ss
unfolding ordered
ordered-perm [] = Perm.refl []
ordered-perm (s ∷ ss) =
    Perm.trans (insert_stack-perm s (ordered ss)) (Perm.cons s (ordered-perm ss))

free-insert_stack :
    (m : ℕ) (s : Stack) (ss : List Stack) → free m (insert_stack s ss) ≡ free m (s ∷ ss)
unfolding insert_stack
free-insert_stack m s [] = refl
free-insert_stack m s (t ∷ ts) = ground (arith, free-insert_stack m s ts)

pub free-ordered : (m : ℕ) (ss : List Stack) → free m (ordered ss) ≡ free m ss
unfolding ordered
free-ordered m [] = refl
free-ordered m (s ∷ ss) = omega (arith, free-insert_stack m s (ordered ss), free-ordered m ss)
