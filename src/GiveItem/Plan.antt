-- ===== src/GiveItem/Plan.antt =====
-- `plan_give_item_stacks` and its loops. Sizes are numbers of items, read from the database.
use pelican_egg_dune_awakeni.Base.{
  ℕ, zero, suc, ◌+◌, ◌-◌, ◌/◌, List, [], ◌∷◌, ltb, leb, ◌==◌, if◌then◌else◌,
}

pub record StackUpdate : Type 0 where
  pub stack_id : ℕ
  pub add : ℕ

-- a row `(stack_id, size)` of `stacks`
pub record Stack : Type 0 where
  pub stack_id : ℕ
  pub size : ℕ

abbrev pub at_least_one : ℕ → ℕ
at_least_one n = if ltb n 1 then 1 else n

unfoldable pub required_stack_count : ℕ → ℕ → ℕ
required_stack_count qty stack_max = let m = at_least_one stack_max in (qty + m - 1) / m

-- `sorted(stacks, key=size, reverse=True)`, which keeps equal sizes in their order
unfoldable pub insert_stack : Stack → List Stack → List Stack
insert_stack s [] = s ∷ []
insert_stack s (t ∷ ts) = if leb t.size s.size then s ∷ t ∷ ts else t ∷ insert_stack s ts

unfoldable pub ordered : List Stack → List Stack
unfolding insert_stack
ordered [] = []
ordered (s ∷ ss) = insert_stack s (ordered ss)

-- what the first loop has done: the updates, and what remains of the request
pub record Filled : Type 0 where
  pub updates : List StackUpdate
  pub remaining : ℕ

abbrev pub topped : Stack → ℕ → Filled → Filled
topped s add rest = record {
  updates = record { stack_id = s.stack_id; add = add } ∷ rest.updates;
  remaining = rest.remaining;
}

-- the first loop, with `break` and `continue`
unfoldable pub fill : ℕ → ℕ → List Stack → Filled
fill m remaining [] = record { updates = []; remaining = remaining }
fill m remaining (s ∷ ss) =
    let space = m - s.size in
    let add = if ltb space remaining then space else remaining in
    let skipped = fill m remaining ss in
    let filled = topped s add (fill m (remaining - add) ss) in
    if remaining == 0
    then record { updates = []; remaining = remaining }
    else if leb m s.size
    then skipped
    else filled

-- the second loop; each round takes at least one item, so that `remaining` rounds are enough
unfoldable pub new_sizes : ℕ → ℕ → ℕ → List ℕ
new_sizes zero m remaining = []
new_sizes (suc fuel) m remaining =
    let size = if ltb m remaining then m else remaining in
    let rest = new_sizes fuel m (remaining - size) in if remaining == 0 then [] else size ∷ rest

-- `if stack_max > 1` around the first loop
unfoldable pub top_up : ℕ → ℕ → List Stack → Filled
top_up m qty stacks =
    if ltb 1 m then fill m qty (ordered stacks) else record { updates = []; remaining = qty }

pub record StackPlan : Type 0 where
  pub updates : List StackUpdate
  pub new_stacks : List ℕ

unfoldable pub plan_give_item_stacks : ℕ → ℕ → List Stack → StackPlan
plan_give_item_stacks qty stack_max stacks =
    let m = at_least_one stack_max in
    let filled = top_up m qty stacks in
    record { updates = filled.updates; new_stacks = new_sizes filled.remaining m filled.remaining }

-- totals, by which the plan is judged
abbrev pub sum : List ℕ → ℕ
sum [] = 0
sum (n ∷ ns) = n + sum ns

abbrev pub added : List StackUpdate → ℕ
added [] = 0
added (u ∷ us) = u.add + added us
