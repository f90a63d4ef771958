-- ===== src/Events.antt =====
-- Player events: the rewards of scripts/admin_rewards.py and the engine of scripts/admin_events.py.
pub mod Rewards
pub mod RewardsLaws
pub mod Store
pub mod Engine
pub mod Tick
pub mod Orderly
pub mod Outcome
pub mod Away
pub mod Rows
pub mod Ticks
pub mod Retries
pub mod Passes
pub mod Reach
