-- ===== src/Tests/AutoscalerTicks.antt =====
-- One map that may run cold, a traveller to it, and passes with mock-k8s up and down.
use pelican_egg_dune_awakeni.Base.{
  ℕ, ◌+◌, ◌≡◌, refl, arith, true, false, List, [], ◌∷◌, ◌++◌, Option, none, some, Text, All, codes,
  strip, lstrip, rstrip, is_space, text_eq, leb, partition, ◌&&◌, if◌then◌else◌,
}
use pelican_egg_dune_awakeni.Base.Int.{pos}
use pelican_egg_dune_awakeni.Base.Numeral.{int, natural, digits}
use pelican_egg_dune_awakeni.Autoscaler.Decide.{
  MapConfig, want, needed_for_load, decide_empty, decide_map,
}
use pelican_egg_dune_awakeni.Autoscaler.Demand.{
  add_peak, demand_for_map, starts_record, num_in, record_of, add_segments, add_lines,
  parse_travel_demand, split_at, parse_dim_row, parse_dim_rows,
}
use pelican_egg_dune_awakeni.Autoscaler.GraceReach.{Passes, here, next, full, run_wake-Late}
use pelican_egg_dune_awakeni.Autoscaler.Grace.{IsLate}
use pelican_egg_dune_awakeni.Autoscaler.Loop.{load_config, scan_pass}
use pelican_egg_dune_awakeni.Autoscaler.Settings.{
  arrakeen, harko, Settings, int_field, validate_map, validate_items, validate_deep_desert,
  validate_config,
}
use pelican_egg_dune_awakeni.Autoscaler.SettingsLaws.{IsCanonical, validate_config-IsCanonical}
use pelican_egg_dune_awakeni.Base.Json.{
  Json, string, array, object, nil, cons, end, field, get, int_of, coerce_bool,
}
use pelican_egg_dune_awakeni.Autoscaler.Store.{record_action, persist_idle, persist_demand}
use pelican_egg_dune_awakeni.Autoscaler.Tail.{complete, read_new_log_lines}
use pelican_egg_dune_awakeni.Autoscaler.Tick.{
  Event, patched, World, Input, Config, scale, scale_maps, run_tick, arm_all, wake_maps, run_wake,
}
use pelican_egg_dune_awakeni.Ini.Lines.{prefix_rest}
use pelican_egg_dune_awakeni.Schedule.Runners.{resolve_scale_key}
use pelican_egg_dune_awakeni.Schedule.Time.{iso, parse_iso}

abbrev fold : ℕ → ℕ
fold c = if leb 65 c && leb c 90 then c + 32 else c

-- two records on one line, the first with a nested server id
demand_run :
    parse_travel_demand fold (
      codes
        "Processing travel queue for A_1 (servers: [4 (x)], num: 0) TRAVEL request for 12 player(s) to B, num=7"
      ∷ [])
    ≡ (codes "A_1", 0) ∷ (codes "B", 12) ∷ []
unfolding parse_travel_demand add_lines add_segments record_of num_in starts_record prefix_rest
    add_peak text_eq is_space
demand_run = refl

rows_run :
    parse_dim_rows fold (
      codes "partition_id,dimension_index"
      ∷ codes "7,1,s,1,t,TRUE, 3 ,a,b"
      ∷ codes "8,2,s,1,t,f,5"
      ∷ [])
    ≡ record { partition_id = 7; online = true; players = some 3 }
      ∷ record { partition_id = 8; online = false; players = some 0 }
      ∷ []
unfolding parse_dim_rows parse_dim_row split_at strip lstrip rstrip is_space int natural digits
    text_eq
rows_run = refl

abbrev log : List ℕ
log = codes "Received travel request for 2 player(s) to M" ++ 10 ∷ []

abbrev lines_of : List ℕ → List Text
lines_of bytes = bytes ∷ []

abbrev cold : MapConfig
cold = record { map_name = "M"; enabled = true; min_replicas = 0; max_replicas = 2 }

abbrev config : Config
config = record {
  maps = cold ∷ [];
  limits = record { players_per_instance = 30; idle_drain_secs = 0; demand_grace_secs = 120 };
  deep_desert = false;
  pool = record {
    min_dims = 1;
    max_dims = 3;
    players_per_dim = 30;
    idle_drain_secs = 600;
    demand_grace_secs = 300;
  };
  webhook = false;
}

abbrev start : World
start = record {
  ledger = record {
    runs = [];
    idle = λ m. none;
    demand = λ m. none;
    log_offset = some 0;
    dims = record { spawning_pid = none; spawning_at = none; last_spawn = none; idle = [] };
  };
  trace = [];
}

-- mock-k8s is down at first
abbrev sees : Input
sees = record {
  now = 1500000;
  size = some 45;
  contents = some log;
  mock = none;
  counts = some (λ m. pos 0);
  patch = λ es k n. some 200;
  rows = none;
  dimension = λ es a. false;
  swept_rows = none;
}

-- it is up, and runs one replica
abbrev later : ℕ → Input
later now = record sees {
  now = now;
  mock = some (record { map_name = "M"; key = codes "n/m"; desired = 1 } ∷ []);
}

abbrev stored : Option ℕ → List Event → World
stored stamp events = record {
  ledger = record (start.ledger) {
    log_offset = some 45;
    demand = λ j. if text_eq (codes "M") j then stamp else none;
  };
  trace = events;
}

-- a wake pass arms the grace also when mock-k8s is down
wake_run : run_wake fold lines_of config sees start ≡ some (stored (some 1) [])
unfolding run_tick run_wake scale_maps wake_maps arm_all scale read_new_log_lines complete
    parse_travel_demand add_lines add_segments record_of num_in starts_record prefix_rest add_peak
    demand_for_map text_eq is_space resolve_scale_key partition decide_map decide_empty want
    needed_for_load persist_idle persist_demand record_action iso parse_iso
wake_run = refl

-- a full tick loses the traveller when mock-k8s is down: the next one drains the map
abbrev world_of : Option World → World
world_of none = start
world_of (some w) = w

abbrev lost : World
lost = world_of (
    run_tick fold lines_of config (later 2500000)
      (world_of (run_tick fold lines_of config sees start)))

lost_run : lost.trace ≡ patched (codes "M") 1 0 2500000 ∷ []
unfolding run_tick run_wake scale_maps wake_maps arm_all scale read_new_log_lines complete
    parse_travel_demand add_lines add_segments record_of num_in starts_record prefix_rest add_peak
    demand_for_map text_eq is_space resolve_scale_key partition decide_map decide_empty want
    needed_for_load persist_idle persist_demand record_action iso parse_iso
lost_run = refl

-- without a log file there is no offset to store, and the tick raises
raise_run :
    run_tick fold lines_of config
      (record sees { size = none })
      (record start { ledger = record (start.ledger) { log_offset = none } })
    ≡ none
unfolding run_tick run_wake scale_maps wake_maps arm_all scale read_new_log_lines complete
    parse_travel_demand add_lines add_segments record_of num_in starts_record prefix_rest add_peak
    demand_for_map text_eq is_space resolve_scale_key partition decide_map decide_empty want
    needed_for_load persist_idle persist_demand record_action iso parse_iso
raise_run = refl

abbrev kept : World
kept = world_of (run_tick fold lines_of config (later 2500000) (stored (some 1) []))

abbrev drained : World
drained = world_of (run_tick fold lines_of config (later 130000000) kept)

drain_run : drained.trace ≡ patched (codes "M") 1 0 130000000 ∷ []
unfolding run_tick run_wake scale_maps wake_maps arm_all scale read_new_log_lines complete
    parse_travel_demand add_lines add_segments record_of num_in starts_record prefix_rest add_peak
    demand_for_map text_eq is_space resolve_scale_key partition decide_map decide_empty want
    needed_for_load persist_idle persist_demand record_action iso parse_iso
drain_run = refl

passes : Passes 1500000 120 (stored (some 1) []) drained
unfolding run_tick run_wake scale_maps wake_maps arm_all scale read_new_log_lines complete
    parse_travel_demand add_lines add_segments record_of num_in starts_record prefix_rest add_peak
    demand_for_map text_eq is_space resolve_scale_key partition decide_map decide_empty want
    needed_for_load persist_idle persist_demand record_action iso parse_iso
passes =
    next
      (next here
        (full fold lines_of config (later 2500000) {v = kept} (omega arith) (omega arith) refl))
      (full fold lines_of config (later 130000000) {v = drained} (omega arith) (omega arith) refl)

run_wake-Late_example : All (IsLate (codes "M") 1500000 120) drained.trace
unfolding run_tick run_wake scale_maps wake_maps arm_all scale read_new_log_lines complete
    parse_travel_demand add_lines add_segments record_of num_in starts_record prefix_rest add_peak
    demand_for_map text_eq is_space resolve_scale_key partition decide_map decide_empty want
    needed_for_load persist_idle persist_demand record_action iso parse_iso
run_wake-Late_example =
    run_wake-Late fold lines_of config sees (codes "M") 120 start {v = stored (some 1) []}
      {u = drained} refl (omega arith) refl passes

abbrev raw : Json
raw = object (
    field (codes "scan_interval_secs") (string (codes " 5 ")) (
      field (codes "maps")
        (array (
          cons (object (field (codes "map") (string (codes "SH_HarkoVillage")) end))
            (cons (object (field (codes "map") (string (codes "SH_Arrakeen")) end)) nil)))
        end))

abbrev settings : Settings
settings = record {
  enabled = false;
  scan_interval_secs = 30;
  wake_poll_secs = 5;
  limits = record { players_per_instance = 30; idle_drain_secs = 300; demand_grace_secs = 120 };
  webhook_url = [];
  deep_desert_enabled = false;
  pool = record {
    min_dims = 1;
    max_dims = 3;
    players_per_dim = 30;
    idle_drain_secs = 600;
    demand_grace_secs = 300;
  };
  maps =
      record { place = arrakeen; enabled = true; min_replicas = 1; max_replicas = 2 }
      ∷ record { place = harko; enabled = true; min_replicas = 1; max_replicas = 2 }
      ∷ [];
}

settings_run : load_config fold (some raw) ≡ some settings
unfolding load_config validate_config validate_deep_desert validate_items validate_map int_field get
    int_of coerce_bool int natural digits strip lstrip rstrip is_space text_eq
settings_run = refl

-- settings that are disarmed only wait
loop_run :
    (scan_pass fold lines_of settings 0 sees
      (record { world = start; next_full = 0; interval = 0 })).interval
    ≡ 30
unfolding scan_pass
loop_run = refl

validate_config-IsCanonical_example : IsCanonical fold settings
unfolding load_config validate_config validate_deep_desert validate_items validate_map int_field get
    int_of coerce_bool int natural digits strip lstrip rstrip is_space text_eq
validate_config-IsCanonical_example = validate_config-IsCanonical fold raw {s = settings} refl
