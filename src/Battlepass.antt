-- ===== src/Battlepass.antt =====
-- scripts/admin_battlepass.py: what players have earned, and what has been paid out for it.
pub mod Store
pub mod Deliver
pub mod Tick
pub mod Paid
pub mod PaidOnce
pub mod ByHand
pub mod Watched
pub mod WatchedRuns
pub mod Reach
