-- ===== src/GiveItem.antt =====
-- scripts/admin_inventory_plan.py: how a give-item request is split into top-ups of existing
-- stacks and new stacks, and whether the inventory has room for it.
pub mod Plan
pub mod Fill
pub mod Sizes
pub mod Order
pub mod PlanLaws
pub mod Build
pub mod BuildLaws
