-- ===== src/Autoscaler/Decide.antt =====
-- `decide_map`: the scaling decision for one map. Instants are microseconds; the settings have the
-- shape that `validate_config` gives them.
use pelican_egg_dune_awakeni.Base.{
  ℕ, ◌+◌, ◌-◌, ◌*◌, ◌/◌, Bool, false, not, ◌&&◌, Option, none, some, String, leb, ltb, min, max,
  or_else, if◌then◌else◌,
}
use pelican_egg_dune_awakeni.Base.Int.{ℤ, pos}
use pelican_egg_dune_awakeni.Schedule.Time.{second}

-- SCALE_REPLICAS_MAX of scripts/admin_instances.py
abbrev pub scale_replicas_max : ℕ
scale_replicas_max = 4

pub record MapConfig : Type 0 where
  pub map_name : String
  pub enabled : Bool
  pub min_replicas : ℕ
  pub max_replicas : ℕ

pub data Action : Type 0 where
  up down hold : Action

pub data Reason : Type 0 where
  disabled scale_up at_floor unreadable occupied idle_drained post_demand_grace draining : Reason

pub record MapDecision : Type 0 where
  pub action : Action
  pub target : ℕ
  pub reason : Reason
  pub idle_since : Option ℕ
  pub last_demand : Option ℕ

-- the three thresholds that are the same for all maps, in players and seconds
pub record Limits : Type 0 where
  pub players_per_instance : ℕ
  pub idle_drain_secs : ℕ
  pub demand_grace_secs : ℕ

-- what a tick knows of a map: `online` is `none` if the population could not be read
pub record Reading : Type 0 where
  pub current : ℕ
  pub online : Option ℤ
  pub demand : ℕ
  pub now : ℕ
  pub idle_since : Option ℕ
  pub last_demand : Option ℕ

abbrev pub ceiling : MapConfig → ℕ
ceiling c = min c.max_replicas scale_replicas_max

abbrev pub floor : MapConfig → ℕ
floor c = min c.min_replicas (ceiling c)

-- only a non-negative count is trustworthy
abbrev pub trusted : Option ℤ → Option ℕ
trusted (some (pos n)) = some n
trusted _ = none

unfoldable pub needed_for_load : Option ℕ → ℕ → ℕ
needed_for_load none players_per_instance = 0
needed_for_load (some online) players_per_instance =
    let p = max players_per_instance 1 in (online + p - 1) / p

abbrev pub one_if : Bool → ℕ
one_if b = if b then 1 else 0

-- the replicas that the strongest signal asks for, within the band
unfoldable pub want : MapConfig → Limits → Reading → ℕ
unfolding needed_for_load
want c l r =
    min
      (max (max (floor c) (needed_for_load (trusted r.online) l.players_per_instance))
        (one_if (ltb 0 r.demand)))
      (ceiling c)

abbrev pub demanded_at : Reading → Option ℕ
demanded_at r = if ltb 0 r.demand then some r.now else r.last_demand

-- `(now - t).total_seconds() < grace`
abbrev pub within_grace : Option ℕ → ℕ → ℕ → Bool
within_grace none grace now = false
within_grace (some t) grace now = ltb now (t + grace * second)

abbrev pub idle_from : Reading → ℕ
idle_from r = or_else r.idle_since r.now

abbrev pub drained : Limits → Reading → Bool
drained l r = leb (idle_from r + l.idle_drain_secs * second) r.now

abbrev pub stay : Reading → Reason → Option ℕ → MapDecision
stay r reason idle = record {
  action = hold;
  target = r.current;
  reason = reason;
  idle_since = idle;
  last_demand = demanded_at r;
}

-- a map that is confirmed empty, above its floor
unfoldable pub decide_empty : MapConfig → Limits → Reading → MapDecision
decide_empty c l r =
    let in_grace = within_grace (demanded_at r) l.demand_grace_secs r.now in
    if drained l r && not in_grace
    then record {
      action = down;
      target = floor c;
      reason = idle_drained;
      idle_since = none;
      last_demand = demanded_at r;
    }
    else stay r (if in_grace then post_demand_grace else draining) (some (idle_from r))

abbrev pub decide_above : Option ℕ → MapConfig → Limits → Reading → MapDecision
decide_above none c l r = stay r unreadable none
decide_above (some online) c l r = if ltb 0 online then stay r occupied none else decide_empty c l r

unfoldable pub decide_map : MapConfig → Limits → Reading → MapDecision
unfolding decide_empty
decide_map c l r =
    if not c.enabled
    then record {
      action = hold;
      target = r.current;
      reason = disabled;
      idle_since = r.idle_since;
      last_demand = r.last_demand;
    }
    else if ltb r.current (want c l r)
    then record {
      action = up;
      target = want c l r;
      reason = scale_up;
      idle_since = none;
      last_demand = demanded_at r;
    }
    else if leb r.current (floor c)
    then stay r at_floor none
    else decide_above (trusted r.online) c l r
