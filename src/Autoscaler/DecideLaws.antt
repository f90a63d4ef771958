-- ===== src/Autoscaler/DecideLaws.antt =====
-- Exactly when a map is scaled up or drained, within which bounds, and that an idle map is drained.
use pelican_egg_dune_awakeni.Base.{
  ℕ, ◌+◌, ◌*◌, ◌≤◌, ◌<◌, ◌≡◌, ◌↔◌, refl, true, false, Option, none, some, List, [], ◌∷◌, arith,
  ◌++◌, ◌⊎◌, inl, inr, max, ◌-◌, ltb, Bool-cases,
}
use native.Mathlib.Nat.{le-div_iff_mul-le}
use pelican_egg_dune_awakeni.Base.Int.{ℤ, pos, negsuc}
use pelican_egg_dune_awakeni.Schedule.Time.{second}
use pelican_egg_dune_awakeni.Autoscaler.Decide.{
  MapConfig, Action, up, down, hold, MapDecision, Limits, Reading, floor, want, needed_for_load,
  scale_replicas_max, demanded_at, within_grace, idle_from, decide_map,
}

zero_needed : (p : ℕ) → needed_for_load (some 0) p ≡ 0
unfolding needed_for_load
zero_needed p = grind arith

want-empty :
    (c : MapConfig) (l : Limits) (r : Reading)
    → r.online ≡ some (pos 0)
    → floor c < r.current
    → want c l r ≤ r.current
unfolding want
want-empty c l r e h = let z = zero_needed l.players_per_instance in ground arith

-- A map is scaled down exactly when it is enabled, its population was read and is 0, it runs
-- above its floor, it has been empty for the drain time, and no travel demand lies within the
-- grace before this tick.
pub decide_map-down :
    (c : MapConfig) (l : Limits) (r : Reading)
    → ((decide_map c l r).action ≡ down)
      ↔ (c.enabled ≡ true)
        × (r.online ≡ some (pos 0))
        × (floor c < r.current)
        × (idle_from r + l.idle_drain_secs * second ≤ r.now)
        × (within_grace (demanded_at r) l.demand_grace_secs r.now ≡ false)
unfolding decide_map
decide_map-down c l r = ground (arith, want-empty c l r)

-- a load needs more than `k` replicas exactly if `k` of them cannot hold it
needed_for_load_iff : (k n ppi : ℕ) → (k < needed_for_load (some n) ppi) ↔ (k * max ppi 1 < n)
unfolding needed_for_load
needed_for_load_iff k n ppi =
    let p = max ppi 1 in
    let (to, from) = le-div_iff_mul-le {k = p} {x = k + 1} {y = n + p - 1} (omega arith) in
    let split : (k + 1) * p ≡ k * p + p = grind arith in
    (λ h. let le = to (omega arith) in omega arith, λ h. let le = from (omega arith) in omega arith)

-- the reasons for which a map runs too few replicas: it is below its minimum, its players, read and
-- trusted, are too many for what runs, or none runs and somebody travels to it
abbrev pub Short : MapConfig → Limits → Reading → Type 0
Short c l r =
    (r.current < c.min_replicas)
    ⊎ (((n : ℕ) × (r.online ≡ some (pos n)) × (r.current * max l.players_per_instance 1 < n))
        ⊎ ((r.current ≡ 0) × (0 < r.demand)))

want_iff_read :
    (c : MapConfig) (l : Limits) (r : Reading) (o : Option ℤ)
    → r.online ≡ o
    → (r.current < want c l r)
      ↔ (r.current < c.max_replicas) × (r.current < scale_replicas_max) × Short c l r
unfolding want needed_for_load
want_iff_read c l r none e = ground arith
want_iff_read c l r (some (pos n)) e =
    let (to, from) = needed_for_load_iff r.current n l.players_per_instance in
    (
      λ h. elim (Bool-cases (ltb (r.current * max l.players_per_instance 1) n)) [
        | inl many ↦ (omega arith, omega arith, inr (inl (n, e, ground arith)))
        | inr few ↦ ground (arith, to)
      ],
      λ h. ground (arith, from),
    )
want_iff_read c l r (some (negsuc n)) e = ground arith

-- A map is scaled up exactly when it is enabled, it runs fewer replicas than its maximum and than
-- the highest scale, and it is below its minimum, or its population was read and is more than the
-- running replicas hold, or none of its replicas runs and there is travel demand.
pub decide_map-up :
    (c : MapConfig) (l : Limits) (r : Reading)
    → ((decide_map c l r).action ≡ up)
      ↔ (c.enabled ≡ true)
        × (r.current < c.max_replicas)
        × (r.current < scale_replicas_max)
        × Short c l r
unfolding decide_map
decide_map-up c l r = ground (arith, want_iff_read c l r r.online refl)

-- whether replicas hold the players that were read and can be trusted
abbrev pub Holds : Option ℤ → ℕ → ℕ → Type 0
Holds (some (pos n)) target ppi = n ≤ target * max ppi 1
Holds _ target ppi = Unit

-- the replicas that a decision sets, against what is allowed, needed and running
abbrev pub Sets : MapConfig → Limits → Reading → Action → ℕ → Type 0
Sets c l r up target =
    (r.current < target)
    × (target ≤ c.max_replicas)
    × (target ≤ scale_replicas_max)
    × ((target ≡ c.max_replicas)
        ⊎ ((target ≡ scale_replicas_max)
            ⊎ ((c.min_replicas ≤ target) × Holds r.online target l.players_per_instance)))
Sets c l r down target =
    (target < r.current) × (target ≤ c.min_replicas) × (r.online ≡ some (pos 0))
Sets c l r hold target = target ≡ r.current

want-Sets :
    (c : MapConfig) (l : Limits) (r : Reading) (o : Option ℤ)
    → r.online ≡ o
    → r.current < want c l r
    → (want c l r ≤ c.max_replicas)
      × (want c l r ≤ scale_replicas_max)
      × ((want c l r ≡ c.max_replicas)
          ⊎ ((want c l r ≡ scale_replicas_max)
              ⊎ ((c.min_replicas ≤ want c l r) × Holds o (want c l r) l.players_per_instance)))
unfolding want needed_for_load
want-Sets c l r none e h = ground arith
want-Sets c l r (some (negsuc n)) e h = ground arith
want-Sets c l r (some (pos n)) e h =
    let enough = needed_for_load_iff (want c l r) n l.players_per_instance in
    ground (arith, enough.1)

-- A decision to scale up sets more replicas than run, at most the maximum of the map and the
-- highest scale, and either as many as these allow, or at least the minimum of the map and enough
-- for the players that were read; one to scale down sets fewer than run, at most the minimum, and
-- only for a map that was read as empty; one to hold sets what runs.
pub decide_map-Sets :
    (c : MapConfig) (l : Limits) (r : Reading)
    → Sets c l r (decide_map c l r).action (decide_map c l r).target
unfolding decide_map
decide_map-Sets c l r = ground (arith, want-Sets c l r r.online refl)

-- Ticks over an empty map that nobody travels to: each gets the timers that the last one left.
abbrev pub quiet : ℕ → ℕ → Option ℕ → Option ℕ → Reading
quiet current now idle_since last_demand = record {
  current = current;
  online = some (pos 0);
  demand = 0;
  now = now;
  idle_since = idle_since;
  last_demand = last_demand;
}

-- the first decision that is not to hold ends the ticks
abbrev pub go_on : Action → MapDecision → MapDecision → MapDecision
go_on hold d rest = rest
go_on up d rest = d
go_on down d rest = d

unfoldable pub quiet_ticks :
    MapConfig → Limits → ℕ → Option ℕ → Option ℕ → List ℕ → MapDecision → MapDecision
quiet_ticks c l current idle last [] d = d
quiet_ticks c l current idle last (now ∷ later) d =
    let d' = decide_map c l (quiet current now idle last) in
    go_on d'.action d' (quiet_ticks c l current d'.idle_since d'.last_demand later d')

abbrev pub Drains : MapConfig → MapDecision → Type 0
Drains c d = (d.action ≡ down) × (d.target ≡ floor c)

module _ (c : MapConfig) (l : Limits) (current : ℕ) (last : Option ℕ) (on : c.enabled ≡ true)
    (above : floor c < current) where
  quiet_step :
      (now since : ℕ)
      → Drains c (decide_map c l (quiet current now (some since) last))
        ⊎ (((decide_map c l (quiet current now (some since) last)).action ≡ hold)
            × ((decide_map c l (quiet current now (some since) last)).idle_since ≡ some since)
            × ((decide_map c l (quiet current now (some since) last)).last_demand ≡ last))
  unfolding decide_map
  quiet_step now since =
      let w = want-empty c l (quiet current now (some since) last) refl above in ground arith

  final_quiet_tick :
      (now since : ℕ)
      → since + l.idle_drain_secs * second ≤ now
      → within_grace last l.demand_grace_secs now ≡ false
      → Drains c (decide_map c l (quiet current now (some since) last))
  unfolding decide_map
  final_quiet_tick now since h g =
      let w = want-empty c l (quiet current now (some since) last) refl above in ground arith

  quiet_ticks-since :
      (ts : List ℕ) (now since : ℕ) (d : MapDecision)
      → since + l.idle_drain_secs * second ≤ now
      → within_grace last l.demand_grace_secs now ≡ false
      → Drains c (quiet_ticks c l current (some since) last (ts ++ (now ∷ [])) d)
  unfolding quiet_ticks
  quiet_ticks-since [] now since d h g =
      let e = final_quiet_tick now since h g in simp (e.0) (refl, e.1)
  quiet_ticks-since (t ∷ ts) now since d h g = elim (quiet_step t since) [
    | inl e ↦ simp (e.0) (refl, e.1)
    | inr (held, same, kept) ↦ simp (held, same, kept) (quiet_ticks-since ts now since _ h g)
  ]

  quiet_first :
      (now : ℕ)
      → Drains c (decide_map c l (quiet current now none last))
        ⊎ (((decide_map c l (quiet current now none last)).action ≡ hold)
            × ((decide_map c l (quiet current now none last)).idle_since ≡ some now)
            × ((decide_map c l (quiet current now none last)).last_demand ≡ last))
  unfolding decide_map
  quiet_first now = let w = want-empty c l (quiet current now none last) refl above in ground arith

  -- An enabled map above its floor that is empty, with no demand, on a run of ticks is drained to
  -- its floor by the last of them, if that is the drain time after the first and outside the
  -- grace of the last demand, however the ticks between lie; each tick gets the timers that the
  -- one before left.
  pub quiet_ticks-Drains :
      (first : ℕ) (ts : List ℕ) (now : ℕ) (d : MapDecision)
      → first + l.idle_drain_secs * second ≤ now
      → within_grace last l.demand_grace_secs now ≡ false
      → Drains c (quiet_ticks c l current none last (first ∷ (ts ++ (now ∷ []))) d)
  unfolding quiet_ticks
  quiet_ticks-Drains first ts now d h g = elim (quiet_first first) [
    | inl e ↦ simp (e.0) (refl, e.1)
    | inr (held, same, kept) ↦ simp (held, same, kept) (quiet_ticks-since ts now first _ h g)
  ]
