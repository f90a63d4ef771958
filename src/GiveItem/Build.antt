-- ===== src/GiveItem/Build.antt =====
-- `build_give_item_plan` with its checks, and the line protocol of `cmd_give_item` in
-- scripts/admin-inventory.py. Messages are values; the volumes are Python's floats, whose
-- operations are a parameter.
use pelican_egg_dune_awakeni.Base.{
  ℕ, Bool, false, not, List, [], ◌∷◌, ◌++◌, map, Option, none, some, Text, strip, is_empty, ◌==◌,
  if◌then◌else◌, length,
}
use pelican_egg_dune_awakeni.Base.Int.{ℤ, pos, negsuc, pos_part, ◌+ℤ◌, ◌-ℤ◌, ltb_ℤ}
use pelican_egg_dune_awakeni.GiveItem.Plan.{Stack, StackUpdate, plan_give_item_stacks}

-- The float operations of the volume check. `floor_quotient a b` is `int(math.floor(a / b))`.
pub record Floats : Type 1 where
  pub Float : Type 0
  pub zero : Float
  pub sub : Float → Float → Float
  pub lt : Float → Float → Bool
  pub le : Float → Float → Bool
  pub floor_quotient : Float → Float → ℤ

pub data Refusal : Type 0 where
  player_required template_required bad_quantity : Refusal
  inventory_full : ℕ → ℤ → Refusal
  over_weight : ℤ → Text → Refusal

pub data Checked : Type 0 where
  valid : Text → Checked
  invalid : Refusal → Checked

abbrev is_zero : ℤ → Bool
is_zero (pos n) = n == 0
is_zero (negsuc n) = false

unfoldable pub validate_give_item_input : ℤ → Text → ℤ → Checked
validate_give_item_input player_id template qty =
    if is_zero player_id
    then invalid player_required
    else if is_empty (strip template)
    then invalid template_required
    else if not (ltb_ℤ (pos 0) qty)
    then invalid bad_quantity
    else valid (strip template)

-- `none` where there is room
unfoldable pub ensure_slot_capacity : Bool → ℤ → ℤ → ℕ → Option Refusal
ensure_slot_capacity has_slot_cap max_slots used_slots new_stack_count =
    if not has_slot_cap
    then none
    else if ltb_ℤ (max_slots -ℤ used_slots) (pos new_stack_count)
    then some (inventory_full new_stack_count (max_slots -ℤ used_slots))
    else none

pub record PlannedNewStack : Type 0 where
  pub size : ℕ
  pub position_index : ℤ

unfoldable pub assign : ℤ → List ℕ → List PlannedNewStack
assign position [] = []
assign position (size ∷ sizes) =
    record { size = size; position_index = position } ∷ assign (position +ℤ pos 1) sizes

-- a `GiveItemPlan` without and with its `error`
pub data GiveItemPlan : Type 0 where
  planned : List StackUpdate → List PlannedNewStack → GiveItemPlan
  refused : Refusal → GiveItemPlan

module _ (F : Floats) where
  open F use {Float, sub, lt, le, floor_quotient}

  unfoldable pub max_items_by_volume : Float → Float → Float → ℤ
  max_items_by_volume max_volume used_volume per_item_vol =
      let available = sub max_volume used_volume in
      floor_quotient (if lt available F.zero then F.zero else available) per_item_vol

  unfoldable pub ensure_volume_capacity : Bool → Float → Float → Float → ℤ → Text → Option Refusal
  ensure_volume_capacity has_vol_cap max_volume used_volume per_item_vol qty template =
      let room = max_items_by_volume max_volume used_volume per_item_vol in
      if not has_vol_cap
      then none
      else if le per_item_vol F.zero
      then none
      else if ltb_ℤ room qty
      then some (over_weight room template)
      else none

  -- the facts about the inventory that the database gives
  pub record Inventory : Type 0 where
    pub stacks : List Stack
    pub max_pos : ℤ
    pub max_slots : ℤ
    pub used_slots : ℤ
    pub max_volume : Float
    pub used_volume : Float
    pub per_item_vol : Float

  -- after the checks of the input and of the volume
  unfoldable pub plan_slots : ℕ → ℕ → Inventory → GiveItemPlan
  plan_slots qty stack_max inv =
      let plan = plan_give_item_stacks qty stack_max inv.stacks in
      elim (ensure_slot_capacity (ltb_ℤ (pos 0) inv.max_slots) inv.max_slots inv.used_slots
        (length plan.new_stacks)) [
          | some e ↦ refused e
          | none ↦ planned plan.updates (assign (inv.max_pos +ℤ pos 1) plan.new_stacks)
        ]

  unfoldable pub plan_volume : ℤ → ℕ → Text → Inventory → GiveItemPlan
  plan_volume qty stack_max trimmed inv =
      elim (ensure_volume_capacity (lt F.zero inv.max_volume) inv.max_volume inv.used_volume
        inv.per_item_vol qty trimmed) [
          | some e ↦ refused e
          | none ↦ plan_slots (pos_part qty) stack_max inv
        ]

  unfoldable pub build_give_item_plan : ℤ → ℕ → Text → Inventory → GiveItemPlan
  build_give_item_plan qty stack_max template inv =
      elim (validate_give_item_input (pos 1) template qty) [
        | invalid e ↦ refused e
        | valid trimmed ↦ plan_volume qty stack_max trimmed inv
      ]

-- the lines that bash reads back
pub data Line : Type 0 where
  error : Refusal → Line
  update : StackUpdate → Line
  new : PlannedNewStack → Line
  summary : ℕ → ℕ → ℤ → Line

unfoldable pub emit : ℤ → GiveItemPlan → List Line
emit qty (refused e) = error e ∷ []
emit qty (planned updates new_stacks) =
    map update updates
    ++ (map new new_stacks ++ (summary (length updates) (length new_stacks) qty ∷ []))

unfoldable pub cmd_give_item : (F : Floats) → ℤ → ℕ → Text → Inventory F → List Line
cmd_give_item F qty stack_max template inv =
    emit qty (build_give_item_plan F qty stack_max template inv)
