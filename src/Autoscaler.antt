-- ===== src/Autoscaler.antt =====
-- scripts/admin_autoscaler.py: how many replicas of each map, and which DeepDesert dimensions, run.
pub mod Decide
pub mod DecideLaws
pub mod Pool
pub mod PoolLaws
pub mod Tail
pub mod TailLaws
pub mod Demand
pub mod Store
pub mod Tick
pub mod Grace
pub mod GraceReach
pub mod Settings
pub mod SettingsLaws
pub mod Loop
