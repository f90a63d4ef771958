-- ===== src/Market/Patch.antt =====
-- `validate_config_patch` and what `set-config` writes. A value of the patch is what the cast `int` or
-- `float` makes of it, `none` where it raises TypeError or ValueError.
use pelican_egg_dune_awakeni.Base.{
  ℕ, Bool, true, false, not, ◌||◌, List, [], ◌∷◌, ◌++◌, Option, none, some, Text, is_empty, ltb,
  or_else, if◌then◌else◌,
}
use pelican_egg_dune_awakeni.Base.Int.{ℤ, pos, negsuc}

-- tests on floats
pub record FloatTests (F : Type 0) : Type 0 where
  pub is_nan : F → Bool
  pub lt : F → F → Bool
  pub of_nat : ℕ → F

-- a key of the patch, if it is there
pub data Field (A : Type 0) : Type 0 where
  absent : Field A
  not_cast : Field A
  cast : A → Field A

pub record Patch (F : Type 0) : Type 0 where
  -- not_cast: no bool, or no list of strings
  pub enabled : Field Bool
  pub max_listings : Field ℤ
  pub buy_threshold : Field F
  pub gamble_die : Field ℤ
  pub gamble_target : Field ℤ
  pub max_buys_per_tick : Field ℤ
  pub scan_interval_secs : Field ℤ
  pub disabled_items : Field (List Text)

-- market-bot.json, `none` for a missing key; also the clean part of a patch
pub record MarketConfig (F : Type 0) : Type 0 where
  pub enabled : Option Bool
  pub max_listings : Option ℤ
  pub buy_threshold : Option F
  pub gamble_die : Option ℤ
  pub gamble_target : Option ℤ
  pub max_buys_per_tick : Option ℤ
  pub scan_interval_secs : Option ℤ
  pub disabled_items : Option (List Text)

pub data PatchError : Type 0 where
  bad_enabled bad_disabled_items target_above_die : PatchError
  not_a_number out_of_range : PatchError

-- the errors of one key, and its clean value
abbrev pub Read : Type 0 → Type 0
Read A = List PatchError × Option A

abbrev pub flag : {A : Type 0} → PatchError → Field A → Read A
flag e absent = ([], none)
flag e not_cast = (e ∷ [], none)
flag e (cast a) = ([], some a)

abbrev pub num : {A : Type 0} → (A → Bool) → Field A → Read A
num inside absent = ([], none)
num inside not_cast = (not_a_number ∷ [], none)
num inside (cast v) = if inside v then ([], some v) else (out_of_range ∷ [], none)

abbrev pub within : ℕ → ℕ → ℤ → Bool
within lo hi (pos n) = not (ltb n lo || ltb hi n)
within lo hi (negsuc n) = false

abbrev pub gt_ℤ : ℤ → ℤ → Bool
gt_ℤ (pos m) (pos n) = ltb n m
gt_ℤ (pos m) (negsuc n) = true
gt_ℤ (negsuc m) (pos n) = false
gt_ℤ (negsuc m) (negsuc n) = ltb m n

-- `clean.get(key, current.get(key, …))`
abbrev pub over : {A : Type 0} → Option A → Option A → Option A
over none old = old
over (some a) old = some a

module _ {F : Type 0} (fl : FloatTests F) where
  abbrev pub float_within : ℕ → ℕ → F → Bool
  float_within lo hi v = not (fl.is_nan v || (fl.lt v (fl.of_nat lo) || fl.lt (fl.of_nat hi) v))

  unfoldable pub clean_of : Patch F → MarketConfig F
  clean_of p = record {
    enabled = (flag bad_enabled p.enabled).1;
    max_listings = (num (within 0 100000) p.max_listings).1;
    buy_threshold = (num (float_within 0 100) p.buy_threshold).1;
    gamble_die = (num (within 1 1000) p.gamble_die).1;
    gamble_target = (num (within 0 1000) p.gamble_target).1;
    max_buys_per_tick = (num (within 0 10000) p.max_buys_per_tick).1;
    scan_interval_secs = (num (within 30 86400) p.scan_interval_secs).1;
    disabled_items = (flag bad_disabled_items p.disabled_items).1;
  }

  -- in the order in which they are found
  abbrev pub key_errors : Patch F → List PatchError
  key_errors p =
      (flag bad_enabled p.enabled).0
      ++ ((num (within 0 100000) p.max_listings).0
          ++ ((num (float_within 0 100) p.buy_threshold).0
              ++ ((num (within 1 1000) p.gamble_die).0
                  ++ ((num (within 0 1000) p.gamble_target).0
                      ++ ((num (within 0 10000) p.max_buys_per_tick).0
                          ++ ((num (within 30 86400) p.scan_interval_secs).0
                              ++ (flag bad_disabled_items p.disabled_items).0))))))

  abbrev pub effective : ℕ → Option ℤ → Option ℤ → ℤ
  effective default new old = or_else (over new old) (pos default)

  -- the target must not be above the die, also if only one of them is patched
  abbrev pub pair_errors : MarketConfig F → MarketConfig F → List PatchError
  pair_errors clean current =
      if gt_ℤ (effective 5 clean.gamble_target current.gamble_target)
        (effective 12 clean.gamble_die current.gamble_die)
      then target_above_die ∷ []
      else []

  unfoldable pub validate_config_patch : Patch F → MarketConfig F → MarketConfig F × List PatchError
  validate_config_patch p current =
      let clean = clean_of p in (clean, key_errors p ++ pair_errors clean current)

  -- `cfg.update(clean)`
  abbrev pub updated : MarketConfig F → MarketConfig F → MarketConfig F
  updated cfg clean = record {
    enabled = over clean.enabled cfg.enabled;
    max_listings = over clean.max_listings cfg.max_listings;
    buy_threshold = over clean.buy_threshold cfg.buy_threshold;
    gamble_die = over clean.gamble_die cfg.gamble_die;
    gamble_target = over clean.gamble_target cfg.gamble_target;
    max_buys_per_tick = over clean.max_buys_per_tick cfg.max_buys_per_tick;
    scan_interval_secs = over clean.scan_interval_secs cfg.scan_interval_secs;
    disabled_items = over clean.disabled_items cfg.disabled_items;
  }

  -- what `set-config` writes, `none` if it refuses
  unfoldable pub set_config : Patch F → MarketConfig F → Option (MarketConfig F)
  set_config p cfg =
      let r = validate_config_patch p cfg in if is_empty r.1 then some (updated cfg r.0) else none
