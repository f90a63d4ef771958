-- ===== src/Progression/Level.antt =====
-- From XP to level, intel and skill points. A result is `none` where a table is too short
-- (IndexError in the script), or where the search runs out of fuel.
use pelican_egg_dune_awakeni.Base.{
  ℕ, zero, suc, ◌+◌, ◌-◌, ◌*◌, ◌/◌, Bool, not, List, [], ◌∷◌, Option, none, some, leb, ltb, ◌==◌,
  or_else, if◌then◌else◌, map,
}
use pelican_egg_dune_awakeni.Base.Int.{ℤ, pos, negsuc, ◌+ℤ◌, ◌-ℤ◌, pos_part, ltb_ℤ}
use pelican_egg_dune_awakeni.Progression.Tables.{Segment, LevelTable, get_elem?, lookup}

-- the loop `while lo < hi`
unfoldable pub find_level : ℕ → List ℕ → ℕ → ℕ → ℕ → Option ℕ
find_level zero table xp lo hi = none
find_level (suc fuel) table xp lo hi =
    if ltb lo hi
    then elim (get_elem? table ((lo + hi + 1) / 2)) [
      | none ↦ none
      | some v ↦
          find_level fuel table xp (if leb v xp then (lo + hi + 1) / 2 else lo)
            (if leb v xp then hi else (lo + hi + 1) / 2 - 1)
    ]
    else some lo

unfoldable pub xp_to_level : LevelTable → ℤ → Option ℕ
xp_to_level t (negsuc n) = some 0
xp_to_level t (pos xp) =
    if xp == 0 then some 0 else find_level (suc t.max_level) t.cumulative_xp xp 1 t.max_level

-- `max(0, CUMULATIVE_XP[level + 1] - xp)`
abbrev pub remaining_xp : Option ℕ → ℤ → Option ℕ
remaining_xp none xp = none
remaining_xp (some v) xp = some (pos_part (pos v -ℤ xp))

abbrev pub to_next_at : LevelTable → Option ℕ → ℤ → Option ℕ
to_next_at t none xp = none
to_next_at t (some level) xp =
    if leb t.max_level level
    then some 0
    else remaining_xp (get_elem? t.cumulative_xp (suc level)) xp

unfoldable pub xp_to_next : LevelTable → ℤ → Option ℕ
xp_to_next t xp = to_next_at t (xp_to_level t xp) xp

-- the first segment that reaches to the level
unfoldable pub segment_intel : List Segment → ℕ → ℕ → ℤ
segment_intel [] cap level = pos cap
segment_intel (s ∷ ss) cap level =
    if leb level s.up_to
    then pos (s.base + level * s.per_level) -ℤ pos (s.per_level_from * s.per_level)
    else segment_intel ss cap level

unfoldable pub intel_at_level : LevelTable → ℕ → ℤ
intel_at_level t level =
    if level == 0
    then pos 0
    else if ltb t.intel_cap_level level
    then pos t.intel_cap_value
    else segment_intel t.intel_segments t.intel_cap_value level

unfoldable pub keystone_sp_bonus : List (ℕ × ℕ) → List ℕ → ℕ
keystone_sp_bonus dict [] = 0
keystone_sp_bonus dict (i ∷ is) = or_else (lookup i dict) 0 + keystone_sp_bonus dict is

abbrev pub all_keystone_ids : List (ℕ × ℕ) → List ℕ
all_keystone_ids dict = map (λ k. k.0) dict

pub record Targets : Type 0 where
  pub expected_total : ℕ
  pub expected_unspent : ℕ
  pub keystone_bonus : ℕ

abbrev pub targets_at : ℕ → ℕ → Option ℕ → Option Targets
targets_at bonus spent_sp none = none
targets_at bonus spent_sp (some level) = some (record {
  expected_total = level + bonus;
  expected_unspent = level + bonus - spent_sp - 1;
  keystone_bonus = bonus;
})

unfoldable pub grant_all_keystone_targets : LevelTable → ℤ → ℕ → Option Targets
grant_all_keystone_targets t xp spent_sp =
    targets_at (keystone_sp_bonus t.keystone_sp (all_keystone_ids t.keystone_sp)) spent_sp
      (xp_to_level t xp)

pub record Summary : Type 0 where
  pub level : ℕ
  pub intel : ℤ
  pub at_cap : Bool
  pub xp_to_next : ℕ
  pub next_level_at : ℕ

abbrev pub summary_of : LevelTable → ℤ → ℕ → Option ℕ → Option ℕ → Option Summary
summary_of t xp level (some next) (some next_at) = some (record {
  level = level;
  intel = intel_at_level t level;
  at_cap = not (ltb_ℤ xp (pos t.max_char_xp));
  xp_to_next = next;
  next_level_at = next_at;
})
summary_of t xp level _ _ = none

abbrev pub summary_at : LevelTable → ℤ → Option ℕ → Option Summary
summary_at t xp none = none
summary_at t xp (some level) =
    summary_of t xp level (xp_to_next t xp)
      (if ltb level t.max_level then get_elem? t.cumulative_xp (suc level) else some t.max_char_xp)

-- without the fields that repeat an argument or a constant
unfoldable pub char_xp_summary : LevelTable → ℤ → Option Summary
char_xp_summary t total_xp = summary_at t total_xp (xp_to_level t total_xp)

-- to between 0 and `cap`
abbrev pub clamp : ℕ → ℤ → ℕ
clamp cap (pos n) = if ltb cap n then cap else n
clamp cap (negsuc n) = 0

pub record Award : Type 0 where
  pub new_xp : ℕ
  pub new_level : ℕ
  pub new_total_sp : ℕ
  pub new_unspent_sp : ℕ
  pub new_intel : ℤ
  pub capped : Bool

abbrev pub award_at : LevelTable → ℕ → ℕ → ℕ → Option ℕ → Option Award
award_at t spent_sp bonus new_xp none = none
award_at t spent_sp bonus new_xp (some level) = some (record {
  new_xp = new_xp;
  new_level = level;
  new_total_sp = level + bonus;
  new_unspent_sp = level + bonus - spent_sp - 1;
  new_intel = intel_at_level t level;
  capped = new_xp == t.max_char_xp;
})

unfoldable pub award_char_xp_outcome : LevelTable → ℤ → ℕ → ℕ → ℤ → Option Award
award_char_xp_outcome t current_xp spent_sp keystone_bonus amount =
    let new_xp = clamp t.max_char_xp (current_xp +ℤ amount) in
    award_at t spent_sp keystone_bonus new_xp (xp_to_level t (pos new_xp))
