-- ===== src/Market.antt =====
-- scripts/admin_market.py: the prices, the orders and the purchases of the market bot.
pub mod Codes
pub mod Category
pub mod Pricing
pub mod Buys
pub mod Patch
pub mod Tick
pub mod BuysLaws
pub mod PatchLaws
pub mod PricingLaws
pub mod TickLaws
