-- ===== src/Autoscaler/GraceReach.antt =====
-- Ticks and wake passes in any order, after a wake pass that has seen a traveller.
use mathlib.Core.Option.{some-injective}
use pelican_egg_dune_awakeni.Base.{
  ℕ, ◌≤◌, ◌<◌, ◌≡◌, inl, inr, refl, ap, sym, subst, ◌∙◌, Bool, true, false, not, ◌&&◌, ◌||◌, List,
  [], ◌∷◌, Option, none, some, Text, text_eq, text_eq_iff, All, ltb, is_empty, is_some, Bool-cases,
  if◌then◌else◌, arith,
}
use pelican_egg_dune_awakeni.Autoscaler.Decide.{
  MapConfig, Action, up, down, hold, Limits, decide_map,
}
use pelican_egg_dune_awakeni.Autoscaler.Demand.{Demands, demand_for_map}
use pelican_egg_dune_awakeni.Autoscaler.Grace.{
  iso-le, IsLate, IsGuarded, IsGuarded-same, if-IsGuarded, scale-IsGuarded, raised,
  scale_maps-IsGuarded, notify-IsGuarded, after_maps-IsGuarded,
}
use pelican_egg_dune_awakeni.Autoscaler.Store.{
  AutoLedger, record_action, set_offset, persist_demand,
}
use pelican_egg_dune_awakeni.Autoscaler.Tick.{
  World, Input, Config, notified, scale, notify, moves, name, tracked, on_ledger, scale_maps,
  tick_from, run_tick, run_wake, arm_all, if_up, wake_reading, wake_found, wake_maps, wake_demanded,
  wake_from, demanded_maps, new_demands, new_lines,
}
use pelican_egg_dune_awakeni.Schedule.Runners.{ScaleKey}
use pelican_egg_dune_awakeni.Schedule.Time.{iso}

abbrev pub configured : Text → List MapConfig → Bool
configured m [] = false
configured m (c ∷ cs) = text_eq (name c) m || configured m cs

module _ (m : Text) where
  -- arming a map leaves its demand no older than it was
  arm_all-kept :
      (t now s : ℕ) (cs : List MapConfig) (l : AutoLedger)
      → t ≤ now
      → l.demand m ≡ some s
      → iso t ≤ s
      → (u : ℕ) × ((arm_all now cs l).demand m ≡ some u) × (iso t ≤ u)
  unfolding arm_all persist_demand
  arm_all-kept t now s [] l h e k = (s, e, k)
  arm_all-kept t now s (c ∷ cs) l h e k = elim (Bool-cases (text_eq (name c) m)) [
    | inl same ↦
        arm_all-kept t now (iso now) cs (persist_demand (name c) (some now) l) h (rw same refl)
          (iso-le t now h)
    | inr ne ↦ arm_all-kept t now s cs (persist_demand (name c) (some now) l) h (rw ne e) k
  ]

  -- a map that is demanded is armed
  arm_all-armed :
      (now : ℕ) (cs : List MapConfig) (l : AutoLedger)
      → configured m cs ≡ true
      → (u : ℕ) × ((arm_all now cs l).demand m ≡ some u) × (iso now ≤ u)
  unfolding arm_all persist_demand
  arm_all-armed now (c ∷ cs) l h = elim (Bool-cases (text_eq (name c) m)) [
    | inl same ↦
        arm_all-kept now now (iso now) cs (persist_demand (name c) (some now) l) (omega arith)
          (rw same refl) (omega arith)
    | inr ne ↦
        let later : configured m cs ≡ true = ground arith in
        arm_all-armed now cs (persist_demand (name c) (some now) l) later
  ]
  arm_all-armed now [] l h = ground arith

  demanded_maps-configured :
      (demands : Demands) (cs : List MapConfig)
      → 0 < demand_for_map demands m
      → configured m cs ≡ true
      → configured m (demanded_maps demands cs) ≡ true
  demanded_maps-configured demands [] h k = k
  demanded_maps-configured demands (c ∷ cs) h k = elim (Bool-cases (text_eq (name c) m)) [
    | inl eq ↦
        let same : name c ≡ m = (text_eq_iff (name c) m).0 eq in
        let wanted : ltb 0 (demand_for_map demands (name c)) ≡ true =
          subst (λ n. ltb 0 (demand_for_map demands n) ≡ true) (sym same) (ground arith) in
        rw (wanted, eq) refl
    | inr ne ↦
        let later : configured m cs ≡ true = ground arith in
        let rest = demanded_maps-configured demands cs h later in
        elim (Bool-cases (ltb 0 (demand_for_map demands (name c)))) [
          | inl wanted ↦ rw (wanted, ne) rest
          | inr idle ↦ rw idle rest
        ]
  ]

module _ (m : Text) (t grace : ℕ) where
  raise-IsGuarded :
      (i : Input) (c : MapConfig) (key : ScaleKey) (target : ℕ) (a : Action) (w : World)
      → (a ≡ up → key.current ≤ target)
      → IsGuarded m t grace w
      → IsGuarded m t grace (if_up i (name c) key target a w)
  raise-IsGuarded i c key target up w h g =
      scale-IsGuarded m t grace i (name c) key target _ w (inr (inl (h refl))) g
  raise-IsGuarded i c key target down w h g = g
  raise-IsGuarded i c key target hold w h g = g

  wake_found-IsGuarded :
      (i : Input) (limits : Limits) (demands : Demands) (c : MapConfig) (o : Option ScaleKey)
      (w : World)
      → IsGuarded m t grace w
      → IsGuarded m t grace (wake_found i limits demands c o w)
  wake_found-IsGuarded i limits demands c none w g = g
  wake_found-IsGuarded i limits demands c (some key) w g =
      let l = record limits { idle_drain_secs = 300 } in
      let r = wake_reading i demands c key in
      raise-IsGuarded i c key (decide_map c l r).target (decide_map c l r).action w
        (raised m t grace c l r) g

  wake_maps-IsGuarded :
      (i : Input) (limits : Limits) (demands : Demands) (cs : List MapConfig) (w : World)
      → IsGuarded m t grace w
      → IsGuarded m t grace (wake_maps i limits demands cs w)
  unfolding wake_maps
  wake_maps-IsGuarded i limits demands [] w g = g
  wake_maps-IsGuarded i limits demands (c ∷ cs) w g =
      wake_maps-IsGuarded i limits demands cs _
        (wake_found-IsGuarded i limits demands c (tracked i.mock c.map_name) w g)

  -- from the point where the maps are armed
  wake_demanded-IsGuarded :
      (cfg : Config) (i : Input) (demands : Demands) (wanted : List MapConfig) (w : World)
      → IsGuarded m t grace (on_ledger (arm_all i.now wanted) w)
      → IsGuarded m t grace (wake_demanded cfg i demands wanted w)
  wake_demanded-IsGuarded cfg i demands wanted w g =
      let armed = on_ledger (arm_all i.now wanted) w in
      let woken = wake_maps i cfg.limits demands wanted armed in
      if-IsGuarded m t grace (is_empty wanted || not (is_some i.mock)) armed _ g (
        notify-IsGuarded m t grace cfg armed woken
          (wake_maps-IsGuarded i cfg.limits demands wanted armed g))

  module _ (fold : ℕ → ℕ) (lines_of : List ℕ → List Text) (cfg : Config) (i : Input) where
    tick_from-IsGuarded :
        (w v : World) (o : Option ℕ)
        → t ≤ i.now
        → grace ≤ cfg.limits.demand_grace_secs
        → tick_from fold lines_of cfg i w o ≡ some v
        → IsGuarded m t grace w
        → IsGuarded m t grace v
    tick_from-IsGuarded w v none h k e g = cc
    tick_from-IsGuarded w v (some o) h k e g =
        let u = on_ledger (set_offset o) w in
        let demands = new_demands fold lines_of i w in
        subst (IsGuarded m t grace) (some-injective _ _ e) (
          after_maps-IsGuarded m t grace cfg i w (scale_maps i cfg.limits demands cfg.maps u) (
            scale_maps-IsGuarded m t grace i cfg.limits demands cfg.maps u h k
              (IsGuarded-same m t grace w u refl g.late g)))

    wake_from-IsGuarded :
        (w v : World) (o : Option ℕ)
        → t ≤ i.now
        → wake_from fold lines_of cfg i w o ≡ some v
        → IsGuarded m t grace w
        → IsGuarded m t grace v
    wake_from-IsGuarded w v none h e g = cc
    wake_from-IsGuarded w v (some o) h e g =
        let u = on_ledger (set_offset o) w in
        let demands = new_demands fold lines_of i w in
        let wanted = demanded_maps demands cfg.maps in
        let (s, stored, recent) =
          arm_all-kept m t i.now g.stamp wanted u.ledger h g.stored g.recent in
        subst (IsGuarded m t grace) (some-injective _ _ e) (
          wake_demanded-IsGuarded cfg i demands wanted u
            (record { stamp = s; stored = stored; recent = recent; late = g.late }))

-- A pass that succeeds, at `t` or later: a full tick, whose limits have at least the grace, or a
-- wake pass.
pub data Pass (t grace : ℕ) (w : World) : World → Type 0 where
  full :
      (fold : ℕ → ℕ) (lines_of : List ℕ → List Text) (cfg : Config) (i : Input) {v : World}
      → t ≤ i.now
      → grace ≤ cfg.limits.demand_grace_secs
      → run_tick fold lines_of cfg i w ≡ some v
      → Pass t grace w v
  wake :
      (fold : ℕ → ℕ) (lines_of : List ℕ → List Text) (cfg : Config) (i : Input) {v : World}
      → t ≤ i.now
      → run_wake fold lines_of cfg i w ≡ some v
      → Pass t grace w v

pub data Passes (t grace : ℕ) (start : World) : World → Type 0 where
  here : Passes t grace start start
  next : {w v : World} → Passes t grace start w → Pass t grace w v → Passes t grace start v

module _ (m : Text) (t grace : ℕ) where
  Pass-IsGuarded : {w v : World} → Pass t grace w v → IsGuarded m t grace w → IsGuarded m t grace v
  unfolding run_tick run_wake
  Pass-IsGuarded {w} {v} (full fold lines_of cfg i h k e) g =
      tick_from-IsGuarded m t grace fold lines_of cfg i w v (new_lines fold lines_of i w).offset h k
        e g
  Pass-IsGuarded {w} {v} (wake fold lines_of cfg i h e) g =
      wake_from-IsGuarded m t grace fold lines_of cfg i w v (new_lines fold lines_of i w).offset h e
        g

  Passes-IsGuarded :
      {w v : World} → Passes t grace w v → IsGuarded m t grace w → IsGuarded m t grace v
  Passes-IsGuarded here g = g
  Passes-IsGuarded (next ps p) g = Pass-IsGuarded p (Passes-IsGuarded ps g)

-- waking a map writes no timer
if_up-demand :
    (i : Input) (n : Text) (key : ScaleKey) (target : ℕ) (a : Action) (w : World)
    → (if_up i n key target a w).ledger.demand ≡ w.ledger.demand
unfolding scale record_action
if_up-demand i n key target up w = refl
if_up-demand i n key target down w = refl
if_up-demand i n key target hold w = refl

wake_found-demand :
    (i : Input) (limits : Limits) (demands : Demands) (c : MapConfig) (o : Option ScaleKey)
    (w : World)
    → (wake_found i limits demands c o w).ledger.demand ≡ w.ledger.demand
wake_found-demand i limits demands c none w = refl
wake_found-demand i limits demands c (some key) w = if_up-demand i (name c) key _ _ w

wake_maps-demand :
    (i : Input) (limits : Limits) (demands : Demands) (cs : List MapConfig) (w : World)
    → (wake_maps i limits demands cs w).ledger.demand ≡ w.ledger.demand
unfolding wake_maps
wake_maps-demand i limits demands [] w = refl
wake_maps-demand i limits demands (c ∷ cs) w =
    let o = tracked i.mock c.map_name in
    wake_maps-demand i limits demands cs (wake_found i limits demands c o w)
    ∙ wake_found-demand i limits demands c o w

if-demand :
    (b : Bool) (w v : World) (f : Text → Option ℕ)
    → w.ledger.demand ≡ f
    → v.ledger.demand ≡ f
    → (if b then w else v).ledger.demand ≡ f
if-demand true w v f g h = g
if-demand false w v f g h = h

wake_demanded-demand :
    (cfg : Config) (i : Input) (demands : Demands) (wanted : List MapConfig) (w : World)
    → (wake_demanded cfg i demands wanted w).ledger.demand ≡ (arm_all i.now wanted w.ledger).demand
wake_demanded-demand cfg i demands wanted w =
    let armed = on_ledger (arm_all i.now wanted) w in
    let woken = wake_maps i cfg.limits demands wanted armed in
    let e = wake_maps-demand i cfg.limits demands wanted armed in
    if-demand (is_empty wanted || not (is_some i.mock)) armed (notify cfg armed woken)
      armed.ledger.demand refl
      (if-demand (cfg.webhook && ltb (moves armed.trace) (moves woken.trace))
        (record woken { trace = notified ∷ woken.trace }) woken armed.ledger.demand e e)

module _ (fold : ℕ → ℕ) (lines_of : List ℕ → List Text) (cfg : Config) (i : Input) where
  -- a pass that sees a traveller to a map leaves its demand on record
  wake_from-armed :
      (m : Text) (w v : World) (o : Option ℕ)
      → configured m cfg.maps ≡ true
      → 0 < demand_for_map (new_demands fold lines_of i w) m
      → wake_from fold lines_of cfg i w o ≡ some v
      → (s : ℕ) × (v.ledger.demand m ≡ some s) × (iso i.now ≤ s)
  wake_from-armed m w v none h k e = cc
  wake_from-armed m w v (some o) h k e =
      let u = on_ledger (set_offset o) w in
      let demands = new_demands fold lines_of i w in
      let wanted = demanded_maps demands cfg.maps in
      let (s, stored, recent) =
        arm_all-armed m i.now wanted u.ledger (demanded_maps-configured m demands cfg.maps k h) in
      let same = ap (λ f. f m) (wake_demanded-demand cfg i demands wanted u) in
      (s, subst (λ x. x.ledger.demand m ≡ some s) (some-injective _ _ e) (same ∙ stored), recent)

  -- Let a wake pass succeed that sees inbound travel to a map of its configuration, and let any
  -- full ticks, with at least the grace in their limits, and wake passes follow, none at an
  -- earlier instant, which all succeed. No request of theirs sets fewer replicas of that map than
  -- it found running before the grace is over, counted from the whole second of the first pass.
  pub run_wake-Late :
      (m : Text) (grace : ℕ) (w : World) {v u : World}
      → configured m cfg.maps ≡ true
      → 0 < demand_for_map (new_demands fold lines_of i w) m
      → run_wake fold lines_of cfg i w ≡ some v
      → Passes i.now grace (record v { trace = [] }) u
      → All (IsLate m i.now grace) u.trace
  unfolding run_wake
  run_wake-Late m grace w {v} {u} h k e ps =
      let (s, stored, recent) = wake_from-armed m w v (new_lines fold lines_of i w).offset h k e in
      let start : IsGuarded m i.now grace (record v { trace = [] }) = record {
        stamp = s;
        stored = stored;
        recent = recent;
        late = tt;
      } in
      let done = Passes-IsGuarded m i.now grace ps start in done.late
