-- ===== src/Autoscaler/Tick.antt =====
-- `run_tick`, `run_wake` and `run_dd_tick`. What the scripts do not decide (the clock, the log file,
-- mock-k8s, the commands of admin-publish.sh) is the record `Input` of a pass. The texts of reasons
-- and messages are left out; the maps of a configuration are distinct, as `validate_config` leaves
-- them.
use pelican_egg_dune_awakeni.Base.{
  ℕ, ◌+◌, ◌*◌, ◌==◌, Bool, false, not, ◌&&◌, ◌||◌, List, [], ◌∷◌, Option, none, some, String, Text,
  codes, ltb, is_some, is_empty, if◌then◌else◌,
}
use pelican_egg_dune_awakeni.Base.Int.{ℤ}
use pelican_egg_dune_awakeni.Autoscaler.Decide.{
  MapConfig, Action, up, down, MapDecision, Limits, Reading, decide_map,
}
use pelican_egg_dune_awakeni.Autoscaler.Decide
use pelican_egg_dune_awakeni.Autoscaler.Demand.{Demands, demand_for_map, parse_travel_demand}
use pelican_egg_dune_awakeni.Autoscaler.Pool
use pelican_egg_dune_awakeni.Autoscaler.Pool.{
  Dim, PoolLimits, Timers, PoolAction, spawn, reap, DimDecision, decide_dimension_pool,
}
use pelican_egg_dune_awakeni.Autoscaler.Store.{
  RunAction, scaled_up, scaled_down, dim_up, dim_down, failed, swept, DimState, AutoLedger,
  record_action, persist_idle, persist_demand, set_offset, set_dims,
}
use pelican_egg_dune_awakeni.Autoscaler.Tail.{NewLines, read_new_log_lines}
use pelican_egg_dune_awakeni.Schedule.Action.{MapEntry}
use pelican_egg_dune_awakeni.Schedule.Runners.{ScaleKey, resolve_scale_key}
use pelican_egg_dune_awakeni.Schedule.Time.{second, iso, parse_iso}

-- What a pass asks for: to set the replicas of a map (with those that it found running, and its
-- instant), to start or stop a dimension, to notify the operator.
pub data Event : Type 0 where
  patched : Text → ℕ → ℕ → ℕ → Event
  commanded : PoolAction → Event
  notified : Event

pub record World : Type 0 where
  pub ledger : AutoLedger
  pub trace : List Event

pub record Input : Type 0 where
  pub now : ℕ
  pub size : Option ℕ
  pub contents : Option (List ℕ)
  pub mock : Option (List MapEntry)
  -- `counts.get(map, 0)`, where they can be read
  pub counts : Option (Text → ℤ)
  -- the status of mock-k8s's answer to a PATCH
  pub patch : List Event → ScaleKey → ℕ → Option ℕ
  pub rows : Option (List Dim)
  pub dimension : List Event → PoolAction → Bool
  pub swept_rows : Option ℕ

pub record Config : Type 0 where
  pub maps : List MapConfig
  pub limits : Limits
  pub deep_desert : Bool
  pub pool : PoolLimits
  pub webhook : Bool

abbrev pub name : MapConfig → Text
name c = codes c.map_name

abbrev pub tracked : Option (List MapEntry) → String → Option ScaleKey
tracked none m = none
tracked (some maps) m = resolve_scale_key maps m

-- `code is not None and code < 300`
abbrev pub accepted : Option ℕ → Bool
accepted none = false
accepted (some code) = ltb code 300

abbrev pub on_ledger : (AutoLedger → AutoLedger) → World → World
on_ledger f w = record w { ledger = f w.ledger }

-- the PATCH and its record
unfoldable pub scale : Input → Text → ScaleKey → ℕ → RunAction → World → World
scale i m key target a w =
    let ok = accepted (i.patch w.trace key target) in
    record {
      ledger = record_action m (if ok then a else failed) w.ledger;
      trace = patched m key.current target i.now ∷ w.trace;
    }

abbrev pub carry_out : Input → Text → ScaleKey → ℕ → Action → World → World
carry_out i m key target up w = scale i m key target scaled_up w
carry_out i m key target down w = scale i m key target scaled_down w
carry_out i m key target Decide.hold w = w

abbrev pub online_of : Option (Text → ℤ) → Text → Option ℤ
online_of none m = none
online_of (some f) m = some (f m)

abbrev pub reading : Input → Demands → MapConfig → ScaleKey → AutoLedger → Reading
reading i demands c key l = record {
  current = key.current;
  online = online_of i.counts (name c);
  demand = demand_for_map demands (name c);
  now = i.now;
  idle_since = parse_iso (l.idle (name c));
  last_demand = parse_iso (l.demand (name c));
}

abbrev pub follow : Input → MapConfig → ScaleKey → MapDecision → World → World
follow i c key d w = carry_out i (name c) key d.target d.action (
    on_ledger (λ l. persist_demand (name c) d.last_demand (persist_idle (name c) d.idle_since l)) w)

abbrev pub scale_found : Input → Limits → Demands → MapConfig → Option ScaleKey → World → World
scale_found i limits demands c none w = w
scale_found i limits demands c (some key) w =
    follow i c key (decide_map c limits (reading i demands c key w.ledger)) w

unfoldable pub scale_maps : Input → Limits → Demands → List MapConfig → World → World
scale_maps i limits demands [] w = w
scale_maps i limits demands (c ∷ cs) w =
    scale_maps i limits demands cs (scale_found i limits demands c (tracked i.mock c.map_name) w)

-- the worst case of a spawn, in seconds
abbrev pub spawn_inflight_max_wait : ℕ
spawn_inflight_max_wait = 600

abbrev pub is_live : ℕ → List Dim → Bool
is_live pid [] = false
is_live pid (d ∷ ds) = (d.online && (d.partition_id == pid)) || is_live pid ds

abbrev pub overdue : ℕ → Option ℕ → Bool
overdue now none = false
overdue now (some at) = ltb (at + spawn_inflight_max_wait * second) now

abbrev pub settle_spawn : ℕ → List Dim → DimState → Option ℕ → DimState
settle_spawn now rows s none = s
settle_spawn now rows s (some pid) =
    if is_live pid rows || overdue now (parse_iso s.spawning_at)
    then record s { spawning_pid = none; spawning_at = none }
    else s

abbrev pub parse_timers : Timers → Timers
parse_timers [] = []
parse_timers ((pid, s) ∷ ts) = (pid, s * second) ∷ parse_timers ts

abbrev pub stamp_timers : Timers → Timers
stamp_timers [] = []
stamp_timers ((pid, t) ∷ ts) = (pid, iso t) ∷ stamp_timers ts

abbrev pub drop_timer : ℕ → Timers → Timers
drop_timer pid [] = []
drop_timer pid ((p, s) ∷ ts) =
    let rest = drop_timer pid ts in if p == pid then rest else (p, s) ∷ rest

abbrev pub last_or : Option ℕ → Option ℕ → Option ℕ
last_or none old = old
last_or (some t) old = some (iso t)

-- the timers are those of the decision, and the instant of the last spawn if it has one
abbrev pub decided_dims : DimDecision → DimState → DimState
decided_dims d s = record s {
  idle = stamp_timers d.idle_since;
  last_spawn = last_or d.last_spawn s.last_spawn;
}

abbrev pub after_command : ℕ → PoolAction → DimState → DimState
after_command now (spawn pid) s = record s { spawning_pid = some pid; spawning_at = some (iso now) }
after_command now (reap pid) s = record s { idle = drop_timer pid s.idle }
after_command now Pool.hold s = s

abbrev pub dim_label : PoolAction → RunAction
dim_label (spawn pid) = dim_up
dim_label (reap pid) = dim_down
dim_label Pool.hold = failed

abbrev pub command : Input → PoolAction → World → World
command i a w =
    let ok = i.dimension w.trace a in
    record {
      ledger =
          record_action (codes "DeepDesert_1") (if ok then dim_label a else failed)
            (set_dims (if ok then after_command i.now a w.ledger.dims else w.ledger.dims) w.ledger);
      trace = commanded a ∷ w.trace;
    }

abbrev pub command_if : Input → PoolAction → World → World
command_if i Pool.hold w = w
command_if i (spawn pid) w = command i (spawn pid) w
command_if i (reap pid) w = command i (reap pid) w

abbrev pub dd_rows : Input → PoolLimits → Option (List Dim) → World → World
dd_rows i l none w = w
dd_rows i l (some rows) w =
    let s = settle_spawn i.now rows w.ledger.dims w.ledger.dims.spawning_pid in
    let d =
      decide_dimension_pool l rows i.now (parse_timers s.idle) (parse_iso s.last_spawn)
        s.spawning_pid in
    command_if i d.action (on_ledger (set_dims (decided_dims d s)) w)

unfoldable pub run_dd_tick : Input → PoolLimits → World → World
run_dd_tick i l w = dd_rows i l i.rows w

abbrev pub sweep : Option ℕ → World → World
sweep none w = w
sweep (some n) w = if n == 0 then w else on_ledger (record_action (codes "farm_state") swept) w

abbrev pub moves : List Event → ℕ
moves [] = 0
moves (patched m c t at ∷ es) = moves es + 1
moves (commanded a ∷ es) = moves es + 1
moves (notified ∷ es) = moves es

-- the operator is told of a pass that acted
abbrev pub notify : Config → World → World → World
notify cfg old w =
    if cfg.webhook && ltb (moves old.trace) (moves w.trace)
    then record w { trace = notified ∷ w.trace }
    else w

abbrev pub after_maps : Config → Input → World → World → World
after_maps cfg i old w =
    notify cfg old (sweep i.swept_rows (if cfg.deep_desert then run_dd_tick i cfg.pool w else w))

abbrev pub demanded_maps : Demands → List MapConfig → List MapConfig
demanded_maps demands [] = []
demanded_maps demands (c ∷ cs) =
    let rest = demanded_maps demands cs in
    if ltb 0 (demand_for_map demands (name c)) then c ∷ rest else rest

unfoldable pub arm_all : ℕ → List MapConfig → AutoLedger → AutoLedger
arm_all now [] l = l
arm_all now (c ∷ cs) l = arm_all now cs (persist_demand (name c) (some now) l)

abbrev pub wake_reading : Input → Demands → MapConfig → ScaleKey → Reading
wake_reading i demands c key = record {
  current = key.current;
  online = none;
  demand = demand_for_map demands (name c);
  now = i.now;
  idle_since = none;
  last_demand = some i.now;
}

-- only `up` is carried out
abbrev pub if_up : Input → Text → ScaleKey → ℕ → Action → World → World
if_up i m key target up w = scale i m key target scaled_up w
if_up i m key target _ w = w

abbrev pub raise : Input → MapConfig → ScaleKey → MapDecision → World → World
raise i c key d w = if_up i (name c) key d.target d.action w

abbrev pub wake_found : Input → Limits → Demands → MapConfig → Option ScaleKey → World → World
wake_found i limits demands c none w = w
wake_found i limits demands c (some key) w =
    raise i c key
      (decide_map c (record limits { idle_drain_secs = 300 }) (wake_reading i demands c key)) w

unfoldable pub wake_maps : Input → Limits → Demands → List MapConfig → World → World
wake_maps i limits demands [] w = w
wake_maps i limits demands (c ∷ cs) w =
    wake_maps i limits demands cs (wake_found i limits demands c (tracked i.mock c.map_name) w)

abbrev pub wake_demanded : Config → Input → Demands → List MapConfig → World → World
wake_demanded cfg i demands wanted w =
    let armed = on_ledger (arm_all i.now wanted) w in
    if is_empty wanted || not (is_some i.mock)
    then armed
    else notify cfg armed (wake_maps i cfg.limits demands wanted armed)

module _ (fold : ℕ → ℕ) (lines_of : List ℕ → List Text) where
  abbrev pub new_lines : Input → World → NewLines
  new_lines i w = read_new_log_lines i.size i.contents w.ledger.log_offset

  abbrev pub new_demands : Input → World → Demands
  new_demands i w = parse_travel_demand fold (lines_of (new_lines i w).consumed)

  abbrev pub tick_from : Config → Input → World → Option ℕ → Option World
  tick_from cfg i w none = none
  tick_from cfg i w (some o) = some (
      after_maps cfg i w
        (scale_maps i cfg.limits (new_demands i w) cfg.maps (on_ledger (set_offset o) w)))

  -- `none` is the TypeError of `set_offset(None)`
  unfoldable pub run_tick : Config → Input → World → Option World
  run_tick cfg i w = tick_from cfg i w (new_lines i w).offset

  abbrev pub wake_from : Config → Input → World → Option ℕ → Option World
  wake_from cfg i w none = none
  wake_from cfg i w (some o) =
      let demands = new_demands i w in
      some
        (wake_demanded cfg i demands (demanded_maps demands cfg.maps) (on_ledger (set_offset o) w))

  unfoldable pub run_wake : Config → Input → World → Option World
  run_wake cfg i w = wake_from cfg i w (new_lines i w).offset
