-- ===== src/Autoscaler/Pool.antt =====
-- `decide_dimension_pool`: at most one DeepDesert dimension is spawned or reaped per tick.
use pelican_egg_dune_awakeni.Base.{
  ℕ, ◌+◌, ◌*◌, Bool, false, not, ◌&&◌, ◌||◌, List, [], ◌∷◌, Option, none, some, leb, ltb, min, ◌==◌,
  is_some, or_else, if◌then◌else◌, length,
}
use pelican_egg_dune_awakeni.Schedule.Time.{second}

-- a row of `parse_dim_rows`; `players` is `none` if it could not be read
pub record Dim : Type 0 where
  pub partition_id : ℕ
  pub online : Bool
  pub players : Option ℕ

pub record PoolLimits : Type 0 where
  pub min_dims : ℕ
  pub max_dims : ℕ
  pub players_per_dim : ℕ
  pub idle_drain_secs : ℕ
  pub demand_grace_secs : ℕ

-- the dict from partition id to the instant since which the dimension is empty
abbrev pub Timers : Type 0
Timers = List (ℕ × ℕ)

abbrev pub timer_of : ℕ → Timers → Option ℕ
timer_of pid [] = none
timer_of pid ((p, t) ∷ ts) = if p == pid then some t else timer_of pid ts

pub data PoolAction : Type 0 where
  spawn reap : ℕ → PoolAction
  hold : PoolAction

pub record DimDecision : Type 0 where
  pub action : PoolAction
  pub idle_since : Timers
  pub last_spawn : Option ℕ

abbrev pub count_live : List Dim → ℕ
count_live [] = 0
count_live (d ∷ ds) = (if d.online then 1 else 0) + count_live ds

abbrev pub unreadable : Dim → Bool
unreadable d = d.online && not (is_some d.players)

abbrev pub any_unreadable : List Dim → Bool
any_unreadable [] = false
any_unreadable (d ∷ ds) = unreadable d || any_unreadable ds

abbrev pub total_players : List Dim → ℕ
total_players [] = 0
total_players (d ∷ ds) = (if d.online then or_else d.players 0 else 0) + total_players ds

-- live, and with no players
abbrev pub empty : Dim → Bool
empty d = d.online && (or_else d.players 0 == 0)

-- the timers of this tick: kept or started for the empty live dimensions, dropped for all others
unfoldable pub empty_timers : ℕ → Timers → List Dim → Timers
empty_timers now old [] = []
empty_timers now old (d ∷ ds) =
    if empty d
    then (d.partition_id, or_else (timer_of d.partition_id old) now) ∷ empty_timers now old ds
    else empty_timers now old ds

abbrev pub smaller : ℕ → Option ℕ → ℕ
smaller p none = p
smaller p (some q) = min p q

-- `min(..., default=None)` over the dimensions that are down
unfoldable pub next_offline : List Dim → Option ℕ
next_offline [] = none
next_offline (d ∷ ds) =
    if d.online then next_offline ds else some (smaller d.partition_id (next_offline ds))

abbrev pub larger : ℕ → Option ℕ → ℕ
larger p none = p
larger p (some q) = if leb q p then p else q

-- the first of the drained ids in descending order
unfoldable pub ready_to_reap : ℕ → ℕ → Timers → Option ℕ
ready_to_reap drain now [] = none
ready_to_reap drain now ((p, t) ∷ ts) =
    if leb (t + drain * second) now
    then some (larger p (ready_to_reap drain now ts))
    else ready_to_reap drain now ts

abbrev pub max_eff : PoolLimits → List Dim → ℕ
max_eff l dims = min l.max_dims (length dims)

abbrev pub min_eff : PoolLimits → List Dim → ℕ
min_eff l dims = min l.min_dims (max_eff l dims)

abbrev pub in_cooldown : Option ℕ → ℕ → ℕ → Bool
in_cooldown none grace now = false
in_cooldown (some t) grace now = ltb now (t + grace * second)

-- below the floor, or the average of the live dimensions at the threshold with headroom
unfoldable pub wants_spawn : PoolLimits → List Dim → Bool
wants_spawn l dims =
    ltb (count_live dims) (min_eff l dims)
    || (leb 1 (count_live dims)
        && ltb (count_live dims) (max_eff l dims)
        && leb (l.players_per_dim * count_live dims) (total_players dims))

abbrev pub decision : PoolAction → Timers → Option ℕ → DimDecision
decision a timers last = record { action = a; idle_since = timers; last_spawn = last }

abbrev pub reap_or_hold : Option ℕ → Timers → ℕ → Option ℕ → DimDecision
reap_or_hold none timers now last = decision hold timers last
reap_or_hold (some pid) timers now last = decision (reap pid) timers (some now)

unfoldable pub try_reap : PoolLimits → List Dim → Timers → ℕ → Option ℕ → DimDecision
try_reap l dims timers now last =
    if ltb (min_eff l dims) (count_live dims) && not (in_cooldown last l.demand_grace_secs now)
    then reap_or_hold (ready_to_reap l.idle_drain_secs now timers) timers now last
    else decision hold timers last

abbrev pub try_spawn : Option ℕ → PoolLimits → List Dim → Timers → ℕ → Option ℕ → DimDecision
try_spawn none l dims timers now last = try_reap l dims timers now last
try_spawn (some pid) l dims timers now last =
    if wants_spawn l dims && not (in_cooldown last l.demand_grace_secs now)
    then decision (spawn pid) timers (some now)
    else try_reap l dims timers now last

unfoldable pub decide_dimension_pool :
    PoolLimits → List Dim → ℕ → Timers → Option ℕ → Option ℕ → DimDecision
decide_dimension_pool l dims now idle_since last_spawn spawning =
    if any_unreadable dims
    then decision hold idle_since last_spawn
    else let timers = empty_timers now idle_since dims in
      if is_some spawning
      then decision hold timers last_spawn
      else try_spawn (next_offline dims) l dims timers now last_spawn
