-- ===== src/Schedule.antt =====
-- scripts/admin_schedule.py: the unattended scheduler.
pub mod Time
pub mod Due
pub mod DueLaws
pub mod Ledger
pub mod Action
pub mod Runners
pub mod Tick
mod Leaves
mod Asking
pub mod Quiet
pub mod Firing
pub mod Restart
pub mod Announce
pub mod Tasks
