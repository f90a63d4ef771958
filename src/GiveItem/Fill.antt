-- ===== src/GiveItem/Fill.antt =====
-- The first loop: existing stacks are topped up in order, each at most to the stack size.
use pelican_egg_dune_awakeni.Base.{
  ℕ, ◌+◌, ◌-◌, ◌≤◌, ◌<◌, ◌≡◌, refl, List, [], ◌∷◌, inl, inr, Bool-cases, ltb, leb, ◌==◌,
  if◌then◌else◌, arith,
}
use pelican_egg_dune_awakeni.GiveItem.Plan.{Stack, StackUpdate, fill, added}

-- the room left in stacks of size `m`
abbrev pub free : ℕ → List Stack → ℕ
free m [] = 0
free m (s ∷ ss) = m - s.size + free m ss

-- Each update goes to a stack of its own, in the order of the stacks, and does not overfill it.
pub data Tops (m : ℕ) : List Stack → List StackUpdate → Type 0 where
  done : {ss : List Stack} → Tops m ss []
  skip : {s : Stack} {ss : List Stack} {us : List StackUpdate} → Tops m ss us → Tops m (s ∷ ss) us
  top :
      {s : Stack} {u : StackUpdate} {ss : List Stack} {us : List StackUpdate}
      → u.stack_id ≡ s.stack_id
      → 0 < u.add
      → s.size + u.add ≤ m
      → Tops m ss us
      → Tops m (s ∷ ss) (u ∷ us)

pub added-fill :
    (m r : ℕ) (ss : List Stack) → added (fill m r ss).updates + (fill m r ss).remaining ≡ r
unfolding fill
added-fill m r [] = omega arith
added-fill m r (s ∷ ss) =
    ground (arith, added-fill m r ss, added-fill m (r - (m - s.size)) ss, added-fill m (r - r) ss)

fill_zero : (m : ℕ) (ss : List Stack) → (fill m 0 ss).remaining ≡ 0
fill_zero m ss = omega (arith, added-fill m 0 ss)

pub remaining-fill : (m r : ℕ) (ss : List Stack) → (fill m r ss).remaining ≡ r - free m ss
unfolding fill
remaining-fill m r [] = omega arith
remaining-fill m r (s ∷ ss) = ground (
  arith,
  remaining-fill m r ss,
  remaining-fill m (r - (m - s.size)) ss,
  remaining-fill m (r - r) ss,
)

pub fill-Tops : (m r : ℕ) (ss : List Stack) → Tops m ss (fill m r ss).updates
unfolding fill
fill-Tops m r [] = done
fill-Tops m r (s ∷ ss) = elim (Bool-cases (r == 0)) [
  | inl e ↦ rw e done
  | inr e ↦ elim (Bool-cases (leb m s.size)) [
    | inl f ↦ rw (e, f) (skip (fill-Tops m r ss))
    | inr f ↦
        rw (e, f)
          (top refl (ground arith) (ground arith)
            (fill-Tops m (r - (if ltb (m - s.size) r then m - s.size else r)) ss))
  ]
]
