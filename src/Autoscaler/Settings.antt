-- ===== src/Autoscaler/Settings.antt =====
-- `validate_config` over JSON values. `none` is an error, whose text is left out.
use pelican_egg_dune_awakeni.Base.{
  ℕ, Bool, true, false, ◌||◌, List, [], ◌∷◌, ◌++◌, Option, none, some, String, Text, codes, strip,
  text_eq, ltb, max, if◌then◌else◌,
}
use pelican_egg_dune_awakeni.Base.Int.{ℤ, pos, pos_part}
use pelican_egg_dune_awakeni.Base.Json.{
  Json, null, boolean, integer, string, array, object, Items, nil, cons, Fields, end, get, get_or,
  int_of, coerce_bool,
}
use pelican_egg_dune_awakeni.Autoscaler.Decide.{MapConfig, Limits, scale_replicas_max}
use pelican_egg_dune_awakeni.Autoscaler.Pool.{PoolLimits}

-- a place of SCALABLE_MAPS
pub data Scalable : Type 0 where
  deep_desert arrakeen harko : Scalable

abbrev pub scalable_name : Scalable → String
scalable_name deep_desert = "DeepDesert_1"
scalable_name arrakeen = "SH_Arrakeen"
scalable_name harko = "SH_HarkoVillage"

abbrev pub same_place : Scalable → Scalable → Bool
same_place deep_desert deep_desert = true
same_place arrakeen arrakeen = true
same_place harko harko = true
same_place _ _ = false

-- an entry of `maps`
pub record MapEntry : Type 0 where
  pub place : Scalable
  pub enabled : Bool
  pub min_replicas : ℕ
  pub max_replicas : ℕ

-- as the decision takes it
abbrev pub map_config : MapEntry → MapConfig
map_config e = record {
  map_name = scalable_name e.place;
  enabled = e.enabled;
  min_replicas = e.min_replicas;
  max_replicas = e.max_replicas;
}

pub record Settings : Type 0 where
  pub enabled : Bool
  pub scan_interval_secs : ℕ
  pub wake_poll_secs : ℕ
  pub limits : Limits
  pub webhook_url : Text
  pub deep_desert_enabled : Bool
  pub pool : PoolLimits
  pub maps : List MapEntry

abbrev pub min_scan_interval_secs : ℕ
min_scan_interval_secs = 30

abbrev pub min_wake_poll_secs : ℕ
min_wake_poll_secs = 2

abbrev pub spawn_cooldown_floor : ℕ
spawn_cooldown_floor = 300

abbrev pub at_least : ℕ → Option ℤ → Option ℕ
at_least minimum none = none
at_least minimum (some n) = some (max (pos_part n) minimum)

-- `_int_field`, for a minimum that is not negative
unfoldable pub int_field : Fields → Text → ℕ → ℕ → Option ℕ
int_field raw key default minimum =
    at_least minimum (int_of (get_or (integer (pos default)) (get key raw)))

abbrev pub place_named : Text → Option Scalable
place_named t =
    if text_eq t (codes "DeepDesert_1")
    then some deep_desert
    else if text_eq t (codes "SH_Arrakeen")
    then some arrakeen
    else if text_eq t (codes "SH_HarkoVillage")
    then some harko
    else none

abbrev pub place_of : Json → Option Scalable
place_of (string t) = place_named t
place_of _ = none

-- `0 <= min_r <= max_r` and `1 <= max_r <= SCALE_REPLICAS_MAX`
abbrev pub ranged : Scalable → Bool → Option ℤ → Option ℤ → Option MapEntry
ranged p on (some (pos lo)) (some (pos hi)) =
    if ltb hi 1 || ltb scale_replicas_max hi
    then none
    else if ltb hi lo
    then none
    else some (record { place = p; enabled = on; min_replicas = lo; max_replicas = hi })
ranged p on _ _ = none

module _ (lower : ℕ → ℕ) where
  abbrev pub placed : Fields → Option Scalable → Option MapEntry
  placed raw none = none
  placed raw (some p) =
      ranged p (coerce_bool lower (get_or (boolean true) (get (codes "enabled") raw)))
        (int_of (get_or (integer (pos 1)) (get (codes "min_replicas") raw)))
        (int_of (get_or (integer (pos 2)) (get (codes "max_replicas") raw)))

  unfoldable pub validate_map : Json → Option MapEntry
  validate_map (object raw) = placed raw (place_of (get_or null (get (codes "map") raw)))
  validate_map _ = none

  abbrev pub has_place : Scalable → List MapEntry → Bool
  has_place p [] = false
  has_place p (e ∷ es) = same_place e.place p || has_place p es

  abbrev pub add_entry : Option MapEntry → Option (List MapEntry) → Option (List MapEntry)
  add_entry none es = none
  add_entry (some e) none = none
  add_entry (some e) (some es) = if has_place e.place es then none else some (e ∷ es)

  -- no map twice
  unfoldable pub validate_items : Items → Option (List MapEntry)
  validate_items nil = some []
  validate_items (cons x xs) = add_entry (validate_map x) (validate_items xs)

  abbrev pub entry_at : Scalable → List MapEntry → List MapEntry
  entry_at p [] = []
  entry_at p (e ∷ es) = let rest = entry_at p es in if same_place e.place p then e ∷ [] else rest

  -- in the order of SCALABLE_MAPS
  abbrev pub in_order : List MapEntry → List MapEntry
  in_order es = entry_at deep_desert es ++ (entry_at arrakeen es ++ entry_at harko es)

  abbrev pub default_map : Scalable → MapEntry
  default_map p = record { place = p; enabled = true; min_replicas = 1; max_replicas = 2 }

  abbrev pub ordered : Option (List MapEntry) → Option (List MapEntry)
  ordered none = none
  ordered (some es) = some (in_order es)

  abbrev pub maps_of : Json → Option (List MapEntry)
  maps_of null = some (default_map deep_desert ∷ default_map arrakeen ∷ default_map harko ∷ [])
  maps_of (array xs) = ordered (validate_items xs)
  maps_of _ = none

  -- the minimum is brought below the maximum, and the cooldown above the worst case of a spawn
  abbrev pub pool_of : Option ℕ → Option ℕ → Option ℕ → Option ℕ → Option ℕ → Option PoolLimits
  pool_of (some lo) (some hi) (some players) (some drain) (some grace) = some (record {
    min_dims = if ltb hi lo then hi else lo;
    max_dims = hi;
    players_per_dim = players;
    idle_drain_secs = drain;
    demand_grace_secs = max grace spawn_cooldown_floor;
  })
  pool_of _ _ _ _ _ = none

  abbrev pub desert_fields : Json → Option Fields
  desert_fields null = some end
  desert_fields (object raw) = some raw
  desert_fields _ = none

  abbrev pub pool_fields : Fields → Option PoolLimits
  pool_fields raw =
      pool_of (int_field raw (codes "min_dims") 1 0) (int_field raw (codes "max_dims") 3 1)
        (int_field raw (codes "players_per_dim") 30 1)
        (int_field raw (codes "idle_drain_secs") 600 0)
        (int_field raw (codes "demand_grace_secs") 300 0)

  abbrev pub with_enabled : Bool → Option PoolLimits → Option (Bool × PoolLimits)
  with_enabled on none = none
  with_enabled on (some l) = some (on, l)

  abbrev pub desert_of : Option Fields → Option (Bool × PoolLimits)
  desert_of none = none
  desert_of (some raw) =
      with_enabled (coerce_bool lower (get_or (boolean false) (get (codes "enabled") raw)))
        (pool_fields raw)

  unfoldable pub validate_deep_desert : Json → Option (Bool × PoolLimits)
  validate_deep_desert v = desert_of (desert_fields v)

  abbrev pub limits_of : Option ℕ → Option ℕ → Option ℕ → Option Limits
  limits_of (some idle) (some grace) (some players) =
      some (record {
        players_per_instance = players;
        idle_drain_secs = idle;
        demand_grace_secs = grace;
      })
  limits_of _ _ _ = none

  abbrev pub webhook_of : Json → Option Text
  webhook_of (string t) = some (strip t)
  webhook_of _ = none

  abbrev pub settings_of :
      Bool
      → Option ℕ
      → Option ℕ
      → Option Limits
      → Option Text
      → Option (Bool × PoolLimits)
      → Option (List MapEntry)
      → Option Settings
  settings_of on (some scan) (some wake) (some limits) (some hook) (some dd) (some maps) =
      some (record {
        enabled = on;
        scan_interval_secs = scan;
        wake_poll_secs = wake;
        limits = limits;
        webhook_url = hook;
        deep_desert_enabled = dd.0;
        pool = dd.1;
        maps = maps;
      })
  settings_of _ _ _ _ _ _ _ = none

  unfoldable pub validate_config : Json → Option Settings
  validate_config (object raw) =
      settings_of (coerce_bool lower (get_or (boolean false) (get (codes "enabled") raw)))
        (int_field raw (codes "scan_interval_secs") 30 min_scan_interval_secs)
        (int_field raw (codes "wake_poll_secs") 5 min_wake_poll_secs)
        (limits_of (int_field raw (codes "idle_drain_secs") 300 0)
          (int_field raw (codes "demand_grace_secs") 120 0)
          (int_field raw (codes "players_per_instance") 30 1))
        (webhook_of (get_or (string []) (get (codes "webhook_url") raw)))
        (validate_deep_desert (get_or null (get (codes "deep_desert") raw)))
        (maps_of (get_or null (get (codes "maps") raw)))
  validate_config _ = none
