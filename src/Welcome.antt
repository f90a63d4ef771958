-- ===== src/Welcome.antt =====
-- scripts/admin_welcome.py: a package of items for every player, given once per version.
pub mod Package
pub mod Store
pub mod Scan
pub mod Served
pub mod Visits
pub mod Serves
pub mod Stops
pub mod Reach
