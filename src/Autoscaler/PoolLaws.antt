-- ===== src/Autoscaler/PoolLaws.antt =====
-- What a spawn and a reap of a DeepDesert dimension guarantee.
use pelican_egg_dune_awakeni.Base.{
  ℕ, ◌+◌, ◌*◌, ◌≤◌, ◌<◌, ◌≡◌, ◌≢◌, refl, true, false, List, [], ◌∷◌, Option, none, some, or_else,
  length, arith, ◌⊎◌,
}
use pelican_egg_dune_awakeni.Schedule.Time.{second}
use pelican_egg_dune_awakeni.Autoscaler.Pool.{
  Dim, PoolLimits, Timers, timer_of, PoolAction, spawn, reap, hold, count_live, any_unreadable,
  empty_timers, next_offline, ready_to_reap, max_eff, min_eff, in_cooldown, wants_spawn, try_reap,
  decide_dimension_pool,
}

-- some dimension of the list has the id and the property
abbrev pub HasDim : (Dim → Type 0) → ℕ → List Dim → Type 0
HasDim P pid [] = ⊥
HasDim P pid (d ∷ ds) = ((d.partition_id ≡ pid) × P d) ⊎ HasDim P pid ds

abbrev pub IsDown : Dim → Type 0
IsDown d = d.online ≡ false

next_offline-IsDown :
    (dims : List Dim) {pid : ℕ} → next_offline dims ≡ some pid → HasDim IsDown pid dims
unfolding next_offline
next_offline-IsDown [] e = ground arith
next_offline-IsDown (d ∷ ds) {pid} e = ground (arith, next_offline-IsDown ds {pid = pid})

-- live, empty, and drained: its timer, old or new, is at least the drain time old
abbrev pub IsDrained : PoolLimits → ℕ → Timers → Dim → Type 0
IsDrained l now idle d =
    (d.online ≡ true)
    × (or_else d.players 0 ≡ 0)
    × (or_else (timer_of d.partition_id idle) now + l.idle_drain_secs * second ≤ now)

ready_to_reap-IsDrained :
    (l : PoolLimits) (now : ℕ) (idle : Timers) (dims : List Dim) {pid : ℕ}
    → ready_to_reap l.idle_drain_secs now (empty_timers now idle dims) ≡ some pid
    → HasDim (IsDrained l now idle) pid dims
unfolding ready_to_reap empty_timers
ready_to_reap-IsDrained l now idle [] e = ground arith
ready_to_reap-IsDrained l now idle (d ∷ ds) {pid} e =
    ground (arith, ready_to_reap-IsDrained l now idle ds {pid = pid})

-- no spawn is in flight, no spawn or reap is younger than the cooldown, and every count was read
abbrev pub MayAct : PoolLimits → List Dim → ℕ → Option ℕ → Option ℕ → Type 0
MayAct l dims now last_spawn spawning =
    (any_unreadable dims ≡ false)
    × (spawning ≡ none)
    × (in_cooldown last_spawn l.demand_grace_secs now ≡ false)

abbrev pub Justified :
    PoolLimits → List Dim → ℕ → Timers → Option ℕ → Option ℕ → PoolAction → Type 0
Justified l dims now idle last_spawn spawning hold = Unit
Justified l dims now idle last_spawn spawning (spawn pid) =
    MayAct l dims now last_spawn spawning
    × (count_live dims < max_eff l dims)
    × HasDim IsDown pid dims
Justified l dims now idle last_spawn spawning (reap pid) =
    MayAct l dims now last_spawn spawning
    × (min_eff l dims < count_live dims)
    × HasDim (IsDrained l now idle) pid dims

-- an id that is offered stands for a dimension with the property
abbrev Offers : (Dim → Type 0) → List Dim → Option ℕ → Type 0
Offers P dims none = Unit
Offers P dims (some pid) = HasDim P pid dims

HasDim-Offers :
    (P : Dim → Type 0) (dims : List Dim) (o : Option ℕ)
    → ((pid : ℕ) → o ≡ some pid → HasDim P pid dims)
    → Offers P dims o
HasDim-Offers P dims none h = tt
HasDim-Offers P dims (some pid) h = h pid refl

wants_spawn-lt :
    (l : PoolLimits) (dims : List Dim)
    → wants_spawn l dims ≡ true
    → count_live dims < max_eff l dims
unfolding wants_spawn
wants_spawn-lt l dims h = ground arith

-- A spawn or a reap of a dimension is made only if every live count was read, no spawn is in
-- flight and the cooldown has passed. What is spawned is a dimension that is down, below the
-- ceiling; what is reaped is a live dimension with no players whose timer, kept or started now,
-- is at least the drain time old, above the floor.
pub decide_dimension_pool-Justified :
    (l : PoolLimits) (dims : List Dim) (now : ℕ) (idle : Timers) (last_spawn spawning : Option ℕ)
    → Justified l dims now idle last_spawn spawning
        (decide_dimension_pool l dims now idle last_spawn spawning).action
unfolding decide_dimension_pool try_reap
decide_dimension_pool-Justified l dims now idle last_spawn spawning = ground (
  arith,
  wants_spawn-lt l dims,
  HasDim-Offers IsDown dims (next_offline dims) (λ pid e. next_offline-IsDown dims e),
  HasDim-Offers (IsDrained l now idle) dims
      (ready_to_reap l.idle_drain_secs now (empty_timers now idle dims))
      (λ pid e. ready_to_reap-IsDrained l now idle dims e),
)

next_offline-some : (dims : List Dim) → count_live dims < length dims → next_offline dims ≢ none
unfolding next_offline
next_offline-some [] h = absurd (omega arith)
next_offline-some (d ∷ ds) h = ground (arith, next_offline-some ds)

abbrev pub Spawns : PoolAction → Type 0
Spawns (spawn pid) = Unit
Spawns _ = ⊥

-- If every live count was read, no spawn is in flight, the cooldown has passed and fewer
-- dimensions are live than the floor, a dimension is spawned.
decide_dimension_pool-Spawns :
    (l : PoolLimits) (dims : List Dim) (now : ℕ) (idle : Timers) (last_spawn spawning : Option ℕ)
    → MayAct l dims now last_spawn spawning
    → count_live dims < min_eff l dims
    → Spawns (decide_dimension_pool l dims now idle last_spawn spawning).action
unfolding decide_dimension_pool wants_spawn
decide_dimension_pool-Spawns l dims now idle last_spawn spawning m h =
    let some_down = next_offline-some dims (omega arith) in ground arith
