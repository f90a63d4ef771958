-- ===== src/Tests/GiveItem.antt =====
-- Inputs from scripts/test_give_item.py and alike.
use mathlib.Core.List.{Perm}
use pelican_egg_dune_awakeni.Base.{
  ℕ, ◌+◌, ◌/◌, ◌<◌, ◌≡◌, ◌≢◌, ◌↔◌, refl, true, false, List, [], ◌∷◌, codes, Text, strip, All,
  if◌then◌else◌,
}
use pelican_egg_dune_awakeni.Base.Int.{ℤ, pos, ◌+ℤ◌, ◌-ℤ◌, ltb_ℤ}
use pelican_egg_dune_awakeni.GiveItem.Build.{
  Floats, Inventory, GiveItemPlan, PlannedNewStack, planned, refused, inventory_full, bad_quantity,
  template_required, build_give_item_plan, validate_give_item_input, plan_volume, plan_slots,
  ensure_volume_capacity, ensure_slot_capacity, assign, max_items_by_volume, emit, summary, update,
  new,
}
use pelican_egg_dune_awakeni.GiveItem.BuildLaws.{
  IsPlanned, Delivers, FitsVolume, FitsSlots, build_give_item_plan-IsPlanned,
  build_give_item_plan-Delivers,
}
use pelican_egg_dune_awakeni.GiveItem.Fill.{Tops}
use pelican_egg_dune_awakeni.GiveItem.Order.{IsDescending}
use pelican_egg_dune_awakeni.GiveItem.Plan.{
  Stack, StackUpdate, plan_give_item_stacks, top_up, fill, new_sizes, ordered, added, sum,
}
use pelican_egg_dune_awakeni.GiveItem.PlanLaws.{plan_conserves, plan_fits}
use pelican_egg_dune_awakeni.GiveItem.Sizes.{FitsStack}

abbrev stack : ℕ → ℕ → Stack
stack i n = record { stack_id = i; size = n }

abbrev stacks : List Stack
stacks = stack 1 8 ∷ stack 2 10 ∷ stack 3 2 ∷ []

abbrev quotient : ℤ → ℤ → ℤ
quotient (pos a) (pos b) = pos (a / b)
quotient _ _ = pos 0

-- volumes in whole units
abbrev units : Floats
units = record {
  Float = ℤ;
  zero = pos 0;
  sub = ◌-ℤ◌;
  lt = ltb_ℤ;
  le = λ a b. if ltb_ℤ b a then false else true;
  floor_quotient = quotient;
}

abbrev inventory : ℤ → Inventory units
inventory max_slots = record {
  stacks = stacks;
  max_pos = pos 4;
  max_slots = max_slots;
  used_slots = pos 3;
  max_volume = pos 100;
  used_volume = pos 10;
  per_item_vol = pos 3;
}

abbrev update_of : ℕ → ℕ → StackUpdate
update_of i n = record { stack_id = i; add = n }

abbrev new_at : ℕ → ℕ → PlannedNewStack
new_at n p = record { size = n; position_index = pos p }

-- with all that a run computes with
build : ℤ → Text → ℤ → GiveItemPlan
unfolding build_give_item_plan validate_give_item_input plan_volume plan_slots
    ensure_volume_capacity ensure_slot_capacity assign max_items_by_volume plan_give_item_stacks
    top_up fill new_sizes ordered strip ◌+ℤ◌ ◌-ℤ◌
build qty template max_slots = build_give_item_plan units qty 10 template (inventory max_slots)

planned_run :
    build (pos 17) (codes " Spice ") (pos 4)
    ≡ planned (update_of 1 2 ∷ update_of 3 8 ∷ []) (new_at 7 5 ∷ [])
unfolding build
planned_run = refl

refused_runs :
    (build (pos 17) (codes "Spice") (pos 3) ≡ refused (inventory_full 1 (pos 0)))
    × (build (pos 17) (codes "  ") (pos 4) ≡ refused template_required)
    × (build (pos 0) (codes "Spice") (pos 4) ≡ refused bad_quantity)
unfolding build
refused_runs = (refl, refl, refl)

lines_run :
    emit (pos 17) (build (pos 17) (codes "Spice") (pos 4))
    ≡ update (update_of 1 2) ∷ update (update_of 3 8) ∷ new (new_at 7 5) ∷ summary 2 1 (pos 17) ∷ []
unfolding build emit
lines_run = refl

plan_conserves_example :
    added (plan_give_item_stacks 17 10 stacks).updates
      + sum (plan_give_item_stacks 17 10 stacks).new_stacks
    ≡ 17
plan_conserves_example = plan_conserves 17 10 stacks

plan_fits_example :
    Tops 10 (ordered stacks) (plan_give_item_stacks 17 10 stacks).updates
    × All (FitsStack 10) (plan_give_item_stacks 17 10 stacks).new_stacks
    × IsDescending (ordered stacks)
    × Perm (ordered stacks) stacks
plan_fits_example = plan_fits 17 10 stacks

build_give_item_plan-IsPlanned_example :
    IsPlanned (build_give_item_plan units (pos 17) 10 (codes "Spice") (inventory (pos 4)))
    ↔ (strip (codes "Spice") ≢ [])
      × (0 < 17)
      × FitsVolume units (pos 17) (inventory (pos 4))
      × FitsSlots units 17 10 (inventory (pos 4))
build_give_item_plan-IsPlanned_example =
    build_give_item_plan-IsPlanned units (pos 17) 10 (codes "Spice") (inventory (pos 4))

build_give_item_plan-Delivers_example :
    Delivers 17
      (pos 4 +ℤ pos 1)
      (build_give_item_plan units (pos 17) 10 (codes "Spice") (inventory (pos 4)))
build_give_item_plan-Delivers_example =
    build_give_item_plan-Delivers units (pos 17) 10 (codes "Spice") (inventory (pos 4))
