-- ===== src/Ini.antt =====
-- scripts/admin_ini_merge.py: how settings are written into INI texts and read back.
pub mod Lines
pub mod Cut
pub mod CutLaws
pub mod Merge
pub mod Collect
pub mod MergeLines
pub mod MergeLaws
pub mod Blocks
pub mod FinishLaws
pub mod ReadBack
pub mod Flat
pub mod Normalize
pub mod NormalizeLaws
