-- ===== src/GiveItem/BuildLaws.antt =====
-- What a give-item plan that is not refused guarantees, and exactly when one is refused.
use pelican_egg_dune_awakeni.Base.{
  ℕ, ◌+◌, ◌-◌, ◌<◌, ◌≡◌, ◌≢◌, ◌↔◌, refl, List, [], ◌∷◌, true, Text, strip, arith,
}
use pelican_egg_dune_awakeni.Base.Int.{ℤ, pos, pos_part, ◌+ℤ◌, ◌≤ℤ◌, ltb_ℤ, +ℤ_parts, -ℤ_parts}
use pelican_egg_dune_awakeni.GiveItem.Build.{
  Floats, Inventory, GiveItemPlan, planned, refused, PlannedNewStack, assign, plan_slots,
  plan_volume, build_give_item_plan, max_items_by_volume, ensure_slot_capacity,
  ensure_volume_capacity, validate_give_item_input,
}
use pelican_egg_dune_awakeni.GiveItem.Plan.{added, sum, required_stack_count, plan_give_item_stacks}
use pelican_egg_dune_awakeni.GiveItem.PlanLaws.{room, plan_conserves, plan_new_stacks}

-- the positions count up from `position`
abbrev pub Consecutive : ℤ → List PlannedNewStack → Type 0
Consecutive position [] = Unit
Consecutive position (n ∷ ns) = (n.position_index ≡ position) × Consecutive (position +ℤ pos 1) ns

abbrev pub sizes : List PlannedNewStack → List ℕ
sizes [] = []
sizes (n ∷ ns) = n.size ∷ sizes ns

assign-Consecutive : (p : ℤ) (ns : List ℕ) → Consecutive p (assign p ns)
unfolding assign
assign-Consecutive p [] = tt
assign-Consecutive p (n ∷ ns) = (refl, assign-Consecutive (p +ℤ pos 1) ns)

sizes-assign : (p : ℤ) (ns : List ℕ) → sizes (assign p ns) ≡ ns
unfolding assign
sizes-assign p [] = refl
sizes-assign p (n ∷ ns) = ground (arith, sizes-assign (p +ℤ pos 1) ns)

abbrev pub IsPlanned : GiveItemPlan → Type 0
IsPlanned (planned us ns) = Unit
IsPlanned (refused e) = ⊥

-- the plan hands out `qty` items at positions from `position` on
abbrev pub Delivers : ℕ → ℤ → GiveItemPlan → Type 0
Delivers qty position (planned us ns) = (added us + sum (sizes ns) ≡ qty) × Consecutive position ns
Delivers qty position (refused e) = Unit

module _ (F : Floats) where
  abbrev pub FitsVolume : ℤ → Inventory F → Type 0
  FitsVolume qty inv =
      F.lt F.zero inv.max_volume ≡ true
      → F.le inv.per_item_vol F.zero ≢ true
      → qty ≤ℤ max_items_by_volume F inv.max_volume inv.used_volume inv.per_item_vol

  abbrev pub FitsSlots : ℕ → ℕ → Inventory F → Type 0
  FitsSlots qty stack_max inv =
      ltb_ℤ (pos 0) inv.max_slots ≡ true
      → inv.used_slots +ℤ pos (required_stack_count (qty - room stack_max inv.stacks) stack_max)
        ≤ℤ inv.max_slots

  plan_slots-Delivers :
      (qty stack_max : ℕ) (inv : Inventory F)
      → Delivers qty (inv.max_pos +ℤ pos 1) (plan_slots F qty stack_max inv)
  unfolding plan_slots
  plan_slots-Delivers qty stack_max inv =
      let plan = plan_give_item_stacks qty stack_max inv.stacks in
      let from = inv.max_pos +ℤ pos 1 in
      ground (
        arith,
        plan_conserves qty stack_max inv.stacks,
        assign-Consecutive from plan.new_stacks,
        sizes-assign from plan.new_stacks,
      )

  plan_slots-IsPlanned :
      (qty stack_max : ℕ) (inv : Inventory F)
      → IsPlanned (plan_slots F qty stack_max inv) ↔ FitsSlots qty stack_max inv
  unfolding plan_slots ensure_slot_capacity
  plan_slots-IsPlanned qty stack_max inv = ground (
    arith,
    (plan_new_stacks qty stack_max inv.stacks).1,
    -ℤ_parts inv.max_slots inv.used_slots,
    +ℤ_parts inv.used_slots
        (pos (required_stack_count (qty - room stack_max inv.stacks) stack_max)),
  )

  plan_volume-IsPlanned :
      (qty : ℤ) (stack_max : ℕ) (trimmed : Text) (inv : Inventory F)
      → IsPlanned (plan_volume F qty stack_max trimmed inv)
        ↔ FitsVolume qty inv × FitsSlots (pos_part qty) stack_max inv
  unfolding plan_volume ensure_volume_capacity
  plan_volume-IsPlanned qty stack_max trimmed inv =
      ground (arith, plan_slots-IsPlanned (pos_part qty) stack_max inv)

  -- A request is planned exactly if its template is not blank, its quantity is positive, the
  -- volume cap (if any, and if the item takes volume) leaves room, and so does the slot cap (if
  -- any) for the new stacks that the existing stacks do not save. Otherwise it is refused.
  pub build_give_item_plan-IsPlanned :
      (qty : ℤ) (stack_max : ℕ) (template : Text) (inv : Inventory F)
      → IsPlanned (build_give_item_plan F qty stack_max template inv)
        ↔ (strip template ≢ [])
          × (0 < pos_part qty)
          × FitsVolume qty inv
          × FitsSlots (pos_part qty) stack_max inv
  unfolding build_give_item_plan validate_give_item_input
  build_give_item_plan-IsPlanned qty stack_max template inv =
      ground (arith, plan_volume-IsPlanned qty stack_max (strip template) inv)

  -- A plan that is not refused hands out exactly the quantity, and its new stacks have the
  -- positions that follow the highest one in use, without a gap.
  pub build_give_item_plan-Delivers :
      (qty : ℤ) (stack_max : ℕ) (template : Text) (inv : Inventory F)
      → Delivers
          (pos_part qty)
          (inv.max_pos +ℤ pos 1)
          (build_give_item_plan F qty stack_max template inv)
  unfolding build_give_item_plan validate_give_item_input plan_volume ensure_volume_capacity
  build_give_item_plan-Delivers qty stack_max template inv =
      ground (arith, plan_slots-Delivers (pos_part qty) stack_max inv)
