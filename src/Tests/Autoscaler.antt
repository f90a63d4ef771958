-- ===== src/Tests/Autoscaler.antt =====
-- A hub with a cold floor, and a pool of three dimensions.
use pelican_egg_dune_awakeni.Autoscaler.Decide.{
  MapConfig, Limits, Reading, MapDecision, up, down, hold, want, decide_map, disabled,
}
use pelican_egg_dune_awakeni.Autoscaler.DecideLaws.{
  Drains, Short, Sets, decide_map-Sets, quiet, quiet_ticks, decide_map-down, decide_map-up,
  quiet_ticks-Drains,
}
use pelican_egg_dune_awakeni.Autoscaler.Pool.{
  Dim, PoolLimits, Timers, reap, decide_dimension_pool, empty_timers, next_offline, ready_to_reap,
  wants_spawn, try_reap,
}
use pelican_egg_dune_awakeni.Autoscaler.PoolLaws.{Justified, decide_dimension_pool-Justified}
use pelican_egg_dune_awakeni.Autoscaler.Tail.{complete, read_new_log_lines}
use pelican_egg_dune_awakeni.Autoscaler.TailLaws.{polls, polls-complete}
use pelican_egg_dune_awakeni.Base.{
  ◌+◌, ◌*◌, ◌≤◌, ◌<◌, ◌≡◌, ◌↔◌, refl, true, false, List, [], ◌∷◌, none, some, arith,
}
use pelican_egg_dune_awakeni.Base.Int.{pos}
use pelican_egg_dune_awakeni.Schedule.Time.{second}

abbrev hub : MapConfig
hub = record { map_name = "SH_Arrakeen"; enabled = true; min_replicas = 0; max_replicas = 3 }

abbrev limits : Limits
limits = record { players_per_instance = 30; idle_drain_secs = 300; demand_grace_secs = 120 }

-- 45 players on one replica
abbrev crowded : Reading
crowded = record {
  current = 1;
  online = some (pos 45);
  demand = 0;
  now = 1000 * second;
  idle_since = none;
  last_demand = none;
}

abbrev idle : Reading
idle = quiet 1 (1000 * second) (some (600 * second)) none

crowded_run : (decide_map hub limits crowded).target ≡ 2
unfolding decide_map want
crowded_run = refl

idle_run : (decide_map hub limits idle).action ≡ down
unfolding decide_map want
idle_run = refl

decide_map-down_example :
    ((decide_map hub limits idle).action ≡ down)
    ↔ (true ≡ true)
      × (some (pos 0) ≡ some (pos 0))
      × (0 < 1)
      × (600 * second + 300 * second ≤ 1000 * second)
      × (false ≡ false)
decide_map-down_example = decide_map-down hub limits idle

decide_map-up_example :
    ((decide_map hub limits crowded).action ≡ up)
    ↔ (true ≡ true) × (1 < hub.max_replicas) × (1 < 4) × Short hub limits crowded
decide_map-up_example = decide_map-up hub limits crowded

decide_map-Sets_example :
    Sets hub limits crowded
      (decide_map hub limits crowded).action
      (decide_map hub limits crowded).target
decide_map-Sets_example = decide_map-Sets hub limits crowded

abbrev first : MapDecision
first = record {
  action = hold;
  target = 1;
  reason = disabled;
  idle_since = none;
  last_demand = none;
}

quiet_ticks-Drains_example :
    Drains hub
      (quiet_ticks hub limits 1 none none (0 ∷ 30 * second ∷ 60 * second ∷ 300 * second ∷ []) first)
quiet_ticks-Drains_example =
    quiet_ticks-Drains hub limits 1 none refl (omega arith) 0 (30 * second ∷ 60 * second ∷ [])
      (300 * second) first (omega arith) refl

abbrev pool_limits : PoolLimits
pool_limits = record {
  min_dims = 1;
  max_dims = 3;
  players_per_dim = 30;
  idle_drain_secs = 600;
  demand_grace_secs = 300;
}

abbrev dims : List Dim
dims =
    record { partition_id = 31; online = true; players = some 4 }
    ∷ record { partition_id = 32; online = true; players = some 0 }
    ∷ record { partition_id = 33; online = false; players = some 0 }
    ∷ []

abbrev timers : Timers
timers = (32, 100 * second) ∷ []

reap_run :
    (decide_dimension_pool pool_limits dims (1000 * second) timers none none).action ≡ reap 32
unfolding decide_dimension_pool try_reap wants_spawn next_offline ready_to_reap empty_timers
reap_run = refl

decide_dimension_pool-Justified_example :
    Justified pool_limits dims
      (1000 * second)
      timers
      none
      none
      (decide_dimension_pool pool_limits dims (1000 * second) timers none none).action
decide_dimension_pool-Justified_example =
    decide_dimension_pool-Justified pool_limits dims (1000 * second) timers none none

-- the log "ab\n" has been read; "c", "d\ne" and "\n" are then appended between the ticks
polls_run :
    polls (97 ∷ 98 ∷ 10 ∷ []) 3 ((99 ∷ []) ∷ (100 ∷ 10 ∷ 101 ∷ []) ∷ (10 ∷ []) ∷ [])
    ≡ 99 ∷ 100 ∷ 10 ∷ 101 ∷ 10 ∷ []
unfolding polls read_new_log_lines complete
polls_run = refl

polls-complete_example :
    polls (97 ∷ 98 ∷ 10 ∷ []) 3 ((99 ∷ []) ∷ (100 ∷ 10 ∷ 101 ∷ []) ∷ (10 ∷ []) ∷ [])
    ≡ complete (99 ∷ 100 ∷ 10 ∷ 101 ∷ 10 ∷ [])
polls-complete_example =
    polls-complete (97 ∷ 98 ∷ 10 ∷ []) 3 (99 ∷ []) ((100 ∷ 10 ∷ 101 ∷ []) ∷ (10 ∷ []) ∷ [])
      (omega arith)
