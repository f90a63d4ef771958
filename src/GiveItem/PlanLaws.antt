-- ===== src/GiveItem/PlanLaws.antt =====
-- What `plan_give_item_stacks` promises of its top-ups and new stacks.
use mathlib.Core.List.{Perm}
use pelican_egg_dune_awakeni.Base.{
  ℕ, ◌+◌, ◌-◌, ◌<◌, ◌≡◌, ◌∙◌, ap, List, inl, inr, Bool-cases, ltb, if◌then◌else◌, arith, All,
  length,
}
use pelican_egg_dune_awakeni.GiveItem.Fill.{Tops, done, free, added-fill, remaining-fill, fill-Tops}
use pelican_egg_dune_awakeni.GiveItem.Order.{
  IsDescending, ordered-IsDescending, ordered-perm, free-ordered,
}
use pelican_egg_dune_awakeni.GiveItem.Plan.{
  Stack, ordered, top_up, plan_give_item_stacks, at_least_one, required_stack_count, added, sum,
}
use pelican_egg_dune_awakeni.GiveItem.Sizes.{
  FitsStack, sum-new_sizes, new_sizes-FitsStack, length-new_sizes-required,
}

-- the room in the existing stacks; none where a stack holds one item
abbrev pub room : ℕ → List Stack → ℕ
room stack_max stacks = if ltb 1 stack_max then free stack_max stacks else 0

module _ (qty stack_max : ℕ) (stacks : List Stack) where
  abbrev m : ℕ
  m = at_least_one stack_max

  at_least_one-pos : 0 < m
  at_least_one-pos = ground arith

  remaining-top_up : (top_up m qty stacks).remaining ≡ qty - room stack_max stacks
  unfolding top_up
  remaining-top_up = ground (arith, remaining-fill m qty (ordered stacks), free-ordered m stacks)

  added-top_up : added (top_up m qty stacks).updates + (top_up m qty stacks).remaining ≡ qty
  unfolding top_up
  added-top_up = ground (arith, added-fill m qty (ordered stacks))

  top_up-Tops : Tops m (ordered stacks) (top_up m qty stacks).updates
  unfolding top_up
  top_up-Tops = elim (Bool-cases (ltb 1 m)) [
    | inl e ↦ rw e (fill-Tops m qty (ordered stacks))
    | inr e ↦ rw e done
  ]

  -- The top-ups and the new stacks together hold exactly the quantity asked for.
  pub plan_conserves :
      added (plan_give_item_stacks qty stack_max stacks).updates
        + sum (plan_give_item_stacks qty stack_max stacks).new_stacks
      ≡ qty
  unfolding plan_give_item_stacks
  plan_conserves =
      let r = (top_up m qty stacks).remaining in
      omega (arith, added-top_up, sum-new_sizes r m r at_least_one-pos (omega arith))

  -- New stacks hold what the room in the existing stacks does not take, and there are as many of
  -- them as `required_stack_count` says.
  pub plan_new_stacks :
      (sum (plan_give_item_stacks qty stack_max stacks).new_stacks ≡ qty - room stack_max stacks)
      × (length (plan_give_item_stacks qty stack_max stacks).new_stacks
          ≡ required_stack_count (qty - room stack_max stacks) stack_max)
  unfolding plan_give_item_stacks
  plan_new_stacks =
      let r = (top_up m qty stacks).remaining in
      (
        sum-new_sizes r m r at_least_one-pos (omega arith) ∙ remaining-top_up,
        length-new_sizes-required stack_max r
            ∙ ap (λ n. required_stack_count n stack_max) remaining-top_up,
      )

  -- Every top-up goes to a stack of its own, largest stack first, and leaves it at most full;
  -- every new stack holds at least one item and is at most full.
  pub plan_fits :
      Tops m (ordered stacks) (plan_give_item_stacks qty stack_max stacks).updates
      × All (FitsStack m) (plan_give_item_stacks qty stack_max stacks).new_stacks
      × IsDescending (ordered stacks)
      × Perm (ordered stacks) stacks
  unfolding plan_give_item_stacks
  plan_fits =
      let r = (top_up m qty stacks).remaining in
      (
        top_up-Tops,
        new_sizes-FitsStack r m r at_least_one-pos,
        ordered-IsDescending stacks,
        ordered-perm stacks,
      )
