-- ===== src/Tests/Progression.antt =====
-- A table of four levels and one of four tiers.
use pelican_egg_dune_awakeni.Base.{ℕ, ◌≤◌, ◌≡◌, ◌↔◌, ◌⊎◌, refl, false, [], ◌∷◌, none, some, arith}
use pelican_egg_dune_awakeni.Base.Int.{pos, ◌+ℤ◌}
use pelican_egg_dune_awakeni.Progression.Tables.{LevelTable, FactionTable}
use pelican_egg_dune_awakeni.Progression.Level.{find_level, xp_to_level}
use pelican_egg_dune_awakeni.Progression.Faction.{
  rep_to_tier, tiers_reached, TierOutcome, faction_tier_outcome, faction_rep_outcome,
}
use pelican_egg_dune_awakeni.Progression.LevelLaws.{
  IsTable, IsFound, xp_to_level-IsFound, xp_to_level_iff,
}
use pelican_egg_dune_awakeni.Progression.Outcomes.{IsClamped}
use pelican_egg_dune_awakeni.Progression.FactionLaws.{
  LandsOn, rep_to_tier_iff, faction_tier_outcome-shown, faction_rep_outcome-IsClamped,
}

abbrev levels : LevelTable
levels = record {
  cumulative_xp = 0 ∷ 40 ∷ 215 ∷ 440 ∷ [];
  max_char_xp = 440;
  max_level = 3;
  intel_segments = record { up_to = 3; base = 4; per_level_from = 1; per_level = 2 } ∷ [];
  intel_cap_level = 3;
  intel_cap_value = 8;
  keystone_sp = (1, 2) ∷ (2, 5) ∷ [];
}

levels-IsTable : IsTable levels
levels-IsTable = ground arith

level_run : xp_to_level levels (pos 300) ≡ some 2
unfolding xp_to_level find_level
level_run = refl

xp_to_level-IsFound_example :
    (l : ℕ) × (xp_to_level levels (pos 300) ≡ some l) × IsFound (0 ∷ 40 ∷ 215 ∷ 440 ∷ []) 300 1 3 l
xp_to_level-IsFound_example = xp_to_level-IsFound levels 300 levels-IsTable (omega arith)

xp_to_level_iff_example : (3 ≤ 2) ↔ (440 ≤ 300)
xp_to_level_iff_example =
    xp_to_level_iff levels 300 2 3 440 levels-IsTable (omega arith) level_run (omega arith) refl

abbrev tiers : FactionTable
tiers = record {
  rep_cap = 499;
  tier_thresholds = 0 ∷ 99 ∷ 249 ∷ 499 ∷ [];
  tier_names = (0, "Outsider") ∷ (1, "Mercenary") ∷ [];
  tier20_names = (1, "Envoy") ∷ [];
  faction_names = (1, "Atreides") ∷ [];
}

tier_run : rep_to_tier (0 ∷ 99 ∷ 249 ∷ 499 ∷ []) 300 ≡ 2
unfolding rep_to_tier tiers_reached
tier_run = refl

rep_to_tier_iff_example : (2 ≤ rep_to_tier (0 ∷ 99 ∷ 249 ∷ 499 ∷ []) 300) ↔ (249 ≤ 300)
rep_to_tier_iff_example =
    rep_to_tier_iff (0 ∷ 99 ∷ 249 ∷ 499 ∷ []) 300 2 249 (ground arith) (omega arith) refl

faction_tier_outcome-shown_example :
    ((o : TierOutcome) × (faction_tier_outcome tiers 1 (pos 2) ≡ some o)
      × (o.tier ≡ 2)
      × LandsOn (0 ∷ 99 ∷ 249 ∷ 499 ∷ []) 2 o.rep)
    ⊎ ((faction_tier_outcome tiers 1 (pos 2) ≡ none) × (4 ≤ 2))
faction_tier_outcome-shown_example =
    faction_tier_outcome-shown tiers 1 2 (ground arith) (omega arith)

faction_rep_outcome-IsClamped_example :
    IsClamped 499 (pos 400 +ℤ pos 200) (faction_rep_outcome tiers 400 (pos 200) 1).new_rep
    × (((faction_rep_outcome tiers 400 (pos 200) 1).capped ≡ false)
        ↔ (pos (faction_rep_outcome tiers 400 (pos 200) 1).new_rep ≡ pos 400 +ℤ pos 200))
    × ((3 ≤ (faction_rep_outcome tiers 400 (pos 200) 1).tier)
        ↔ (499 ≤ (faction_rep_outcome tiers 400 (pos 200) 1).new_rep))
faction_rep_outcome-IsClamped_example =
    faction_rep_outcome-IsClamped tiers 400 (pos 200) 1 3 499 (ground arith) (omega arith) refl
