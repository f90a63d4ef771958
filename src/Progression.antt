-- ===== src/Progression.antt =====
-- Levels, skill points and faction reputation: scripts/admin_progression.py.
pub mod Tables
pub mod Level
pub mod Faction
pub mod LevelLaws
pub mod Outcomes
pub mod FactionLaws
