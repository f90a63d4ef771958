-- ===== src/Progression/Faction.antt =====
-- Faction reputation and tiers. Reputation in the game is not negative; a change may be.
use pelican_egg_dune_awakeni.Base.{
  ℕ, suc, ◌+◌, ◌-◌, Bool, false, not, ◌&&◌, List, [], ◌∷◌, Option, none, some, leb, ltb, ◌==◌,
  String, length, is_some, if◌then◌else◌,
}
use pelican_egg_dune_awakeni.Base.Int.{ℤ, pos, negsuc, ◌+ℤ◌}
use pelican_egg_dune_awakeni.Progression.Level.{clamp}
use pelican_egg_dune_awakeni.Progression.Tables.{FactionTable, get_elem?, lookup}

unfoldable pub clamp_faction_rep : ℕ → ℤ → ℕ
clamp_faction_rep cap rep = clamp cap rep

-- the loop over the thresholds from index 1, up to the first that is not reached
unfoldable pub tiers_reached : List ℕ → ℕ → ℕ
tiers_reached [] rep = 0
tiers_reached (v ∷ vs) rep = if leb v rep then suc (tiers_reached vs rep) else 0

unfoldable pub rep_to_tier : List ℕ → ℕ → ℕ
rep_to_tier [] rep = 0
rep_to_tier (v ∷ vs) rep = tiers_reached vs rep

-- a name of a table, or one made of a number: `Faction<id>`, `Tier <n>`
pub data Name : Type 0 where
  named : String → Name
  numbered : ℕ → Name

abbrev pub name_or : Option String → ℕ → Name
name_or none n = numbered n
name_or (some s) n = named s

unfoldable pub faction_display_name : FactionTable → ℕ → Name
faction_display_name t faction_id = name_or (lookup faction_id t.faction_names) faction_id

abbrev pub max_tier : List ℕ → ℕ
max_tier thresholds = length thresholds - 1

unfoldable pub faction_tier_name : FactionTable → ℕ → ℕ → Name
faction_tier_name t faction_id tier =
    if tier == max_tier t.tier_thresholds && is_some (lookup faction_id t.tier20_names)
    then name_or (lookup faction_id t.tier20_names) tier
    else name_or (lookup tier t.tier_names) tier

abbrev nudged : ℕ → Option ℕ → Option ℕ
nudged tier none = none
nudged tier (some rep) = some (if ltb 0 tier then rep + 1 else rep)

-- `none` stands for the ValueError
unfoldable pub tier_to_rep : List ℕ → ℤ → Option ℕ
tier_to_rep thresholds (negsuc n) = none
tier_to_rep thresholds (pos tier) =
    if ltb (max_tier thresholds) tier then none else nudged tier (get_elem? thresholds tier)

pub record TierOutcome : Type 0 where
  pub rep : ℕ
  pub tier : ℕ
  pub tier_name : Name
  pub faction_name : Name

abbrev pub tier_outcome_at : FactionTable → ℕ → ℕ → Option ℕ → Option TierOutcome
tier_outcome_at t faction_id tier none = none
tier_outcome_at t faction_id tier (some rep) = some (record {
  rep = rep;
  tier = tier;
  tier_name = faction_tier_name t faction_id tier;
  faction_name = faction_display_name t faction_id;
})

unfoldable pub faction_tier_outcome : FactionTable → ℕ → ℤ → Option TierOutcome
faction_tier_outcome t faction_id (negsuc n) = none
faction_tier_outcome t faction_id (pos tier) =
    tier_outcome_at t faction_id tier (tier_to_rep t.tier_thresholds (pos tier))

pub record RepOutcome : Type 0 where
  pub new_rep : ℕ
  pub tier : ℕ
  pub tier_name : Name
  pub faction_name : Name
  pub capped : Bool

abbrev pub same : ℕ → ℤ → Bool
same n (pos m) = n == m
same n (negsuc m) = false

unfoldable pub faction_rep_outcome : FactionTable → ℕ → ℤ → ℕ → RepOutcome
unfolding clamp_faction_rep
faction_rep_outcome t current_rep delta faction_id =
    let new_rep = clamp_faction_rep t.rep_cap (pos current_rep +ℤ delta) in
    record {
      new_rep = new_rep;
      tier = rep_to_tier t.tier_thresholds new_rep;
      tier_name = faction_tier_name t faction_id (rep_to_tier t.tier_thresholds new_rep);
      faction_name = faction_display_name t faction_id;
      capped = not (same new_rep (pos current_rep +ℤ delta));
    }
