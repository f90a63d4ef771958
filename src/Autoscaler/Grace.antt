-- ===== src/Autoscaler/Grace.antt =====
-- After a wake pass has seen a traveller, no pass drains the map within the grace.
use pelican_egg_dune_awakeni.Base.{
  ℕ, ◌==◌, ◌+◌, ◌*◌, ◌≤◌, ◌≡◌, ◌⊎◌, inl, inr, refl, ap, sym, subst, ◌∙◌, Bool, true, false, ◌&&◌,
  List, [], ◌∷◌, Option, none, some, Text, codes, text_eq, text_eq_iff, All, ltb, Bool-cases,
  if◌then◌else◌, arith,
}
use pelican_egg_dune_awakeni.Autoscaler.Decide.{
  MapConfig, Action, up, down, hold, MapDecision, Limits, Reading, decide_map, demanded_at,
  within_grace,
}
use pelican_egg_dune_awakeni.Autoscaler.DecideLaws.{Sets, decide_map-down, decide_map-Sets}
use pelican_egg_dune_awakeni.Autoscaler.Demand.{Demands}
use pelican_egg_dune_awakeni.Autoscaler.Pool
use pelican_egg_dune_awakeni.Autoscaler.Store.{
  RunAction, AutoLedger, DimState, swept, set_dims, record_action, stamped, persist_idle,
  persist_demand,
}
use pelican_egg_dune_awakeni.Autoscaler.Tick.{
  Event, patched, commanded, notified, World, Input, Config, name, tracked, scale, carry_out,
  follow, reading, scale_found, scale_maps, run_dd_tick, dd_rows, settle_spawn, parse_timers,
  decided_dims, on_ledger, command_if, moves, sweep, notify, after_maps,
}
use pelican_egg_dune_awakeni.Schedule.Runners.{ScaleKey}
use pelican_egg_dune_awakeni.Schedule.Time.{second, iso, parse_iso}

last_read :
    (n : Text) (l : AutoLedger) (s : ℕ)
    → l.demand n ≡ some s
    → parse_iso (l.demand n) ≡ some (s * second)
unfolding parse_iso
last_read n l s h = rw h refl

-- whole seconds are printed and read back, and cut off less than one
iso-second : (s : ℕ) → iso (s * second) ≡ s
unfolding iso
iso-second s = omega arith

pub iso-le : (a b : ℕ) → a ≤ b → iso a ≤ iso b
unfolding iso
iso-le a b h = omega arith

iso_le : (a : ℕ) → iso a * second ≤ a
unfolding iso
iso_le a = omega arith

-- the instant of the last demand is kept, or is that of the tick
abbrev Recent : ℕ → ℕ → Option ℕ → Type 0
Recent now s d = (d ≡ some now) ⊎ (d ≡ some (s * second))

decide_map-Recent :
    (c : MapConfig) (l : Limits) (r : Reading) (s : ℕ)
    → r.last_demand ≡ some (s * second)
    → Recent r.now s (decide_map c l r).last_demand
unfolding decide_map
decide_map-Recent c l r s h = ground arith

demanded_at-Recent :
    (r : Reading) (s : ℕ) → r.last_demand ≡ some (s * second) → Recent r.now s (demanded_at r)
demanded_at-Recent r s h = ground arith

stamped-Recent :
    (now s t : ℕ) (d : Option ℕ)
    → iso t ≤ s
    → t ≤ now
    → Recent now s d
    → (u : ℕ) × (stamped d ≡ some u) × (iso t ≤ u)
stamped-Recent now s t d h k (inl e) = (iso now, ap stamped e, iso-le t now k)
stamped-Recent now s t d h k (inr e) = (s, ap stamped e ∙ ap some (iso-second s), h)

out_of_grace :
    (now s t grace g : ℕ) (d : Option ℕ)
    → t ≤ now
    → grace ≤ g
    → iso t ≤ s
    → within_grace d g now ≡ false
    → Recent now s d
    → iso t * second + grace * second ≤ now
out_of_grace now s t grace g d h k e out (inl r) =
    let gone = subst (λ x. within_grace x g now ≡ false) r out in ground (arith, iso_le t)
out_of_grace now s t grace g d h k e out (inr r) =
    let gone = subst (λ x. within_grace x g now ≡ false) r out in ground (arith, iso_le t)

-- an event that does not take replicas from the map, or comes after the grace of `t`
abbrev pub IsLate : Text → ℕ → ℕ → Event → Type 0
IsLate m t grace (patched n current target at) =
    (text_eq n m ≡ false) ⊎ ((current ≤ target) ⊎ (iso t * second + grace * second ≤ at))
IsLate m t grace (commanded a) = Unit
IsLate m t grace notified = Unit

module _ (m : Text) (t grace : ℕ) where
  -- the demand is on record, and all events are late
  pub record IsGuarded (w : World) : Type 0 where
    pub stamp : ℕ
    pub stored : w.ledger.demand m ≡ some stamp
    pub recent : iso t ≤ stamp
    pub late : All (IsLate m t grace) w.trace

  -- nothing of it changes but a late event
  pub IsGuarded-same :
      (w v : World)
      → v.ledger.demand m ≡ w.ledger.demand m
      → All (IsLate m t grace) v.trace
      → IsGuarded w
      → IsGuarded v
  IsGuarded-same w v e a g = record {
    stamp = g.stamp;
    stored = e ∙ g.stored;
    recent = g.recent;
    late = a;
  }

  pub if-IsGuarded :
      (b : Bool) (w v : World) → IsGuarded w → IsGuarded v → IsGuarded (if b then w else v)
  if-IsGuarded true w v g h = g
  if-IsGuarded false w v g h = h

  pub scale-IsGuarded :
      (i : Input) (n : Text) (key : ScaleKey) (target : ℕ) (a : RunAction) (w : World)
      → IsLate m t grace (patched n key.current target i.now)
      → IsGuarded w
      → IsGuarded (scale i n key target a w)
  unfolding scale record_action
  scale-IsGuarded i n key target a w e g =
      IsGuarded-same w (scale i n key target a w) refl (e, g.late) g

  carry_out-IsGuarded :
      (i : Input) (n : Text) (key : ScaleKey) (target : ℕ) (a : Action) (w : World)
      → (a ≡ up → IsLate m t grace (patched n key.current target i.now))
      → (a ≡ down → IsLate m t grace (patched n key.current target i.now))
      → IsGuarded w
      → IsGuarded (carry_out i n key target a w)
  carry_out-IsGuarded i n key target up w u d g = scale-IsGuarded i n key target _ w (u refl) g
  carry_out-IsGuarded i n key target down w u d g = scale-IsGuarded i n key target _ w (d refl) g
  carry_out-IsGuarded i n key target hold w u d g = g

  -- what a decision of a tick sets
  decided-IsLate :
      (i : Input) (limits : Limits) (demands : Demands) (c : MapConfig) (key : ScaleKey)
      (l : AutoLedger) (s : ℕ)
      → t ≤ i.now
      → grace ≤ limits.demand_grace_secs
      → iso t ≤ s
      → l.demand (name c) ≡ some s
      → (decide_map c limits (reading i demands c key l)).action ≡ down
      → iso t * second + grace * second ≤ i.now
  unfolding parse_iso
  decided-IsLate i limits demands c key l s h k e there down_now =
      let r = reading i demands c key l in
      let (on, empty, above, idle, out) = (decide_map-down c limits r).0 down_now in
      let last : r.last_demand ≡ some (s * second) = last_read (name c) l s there in
      out_of_grace i.now s t grace limits.demand_grace_secs (demanded_at r) h k e out
        (demanded_at-Recent r s last)

  pub raised :
      (c : MapConfig) (l : Limits) (r : Reading)
      → (decide_map c l r).action ≡ up
      → r.current ≤ (decide_map c l r).target
  raised c l r e =
      let sets = subst (λ a. Sets c l r a (decide_map c l r).target) e (decide_map-Sets c l r) in
      omega (arith, sets.0)

  follow-demand_ne :
      (i : Input) (c : MapConfig) (key : ScaleKey) (d : MapDecision) (l : AutoLedger)
      → text_eq (name c) m ≡ false
      → (persist_demand (name c) d.last_demand (persist_idle (name c) d.idle_since l)).demand m
        ≡ l.demand m
  unfolding persist_demand persist_idle
  follow-demand_ne i c key d l h = rw h refl

  pub persist_demand_self :
      (n : Text) (v : Option ℕ) (l : AutoLedger)
      → text_eq n m ≡ true
      → (persist_demand n v l).demand m ≡ stamped v
  unfolding persist_demand
  persist_demand_self n v l h = rw h refl

  -- a map that a tick finds
  scale_key-IsGuarded :
      (i : Input) (limits : Limits) (demands : Demands) (c : MapConfig) (key : ScaleKey) (w : World)
      → t ≤ i.now
      → grace ≤ limits.demand_grace_secs
      → IsGuarded w
      → IsGuarded (follow i c key (decide_map c limits (reading i demands c key w.ledger)) w)
  scale_key-IsGuarded i limits demands c key w h k g =
      let r = reading i demands c key w.ledger in
      let d = decide_map c limits r in
      let l = persist_demand (name c) d.last_demand (persist_idle (name c) d.idle_since w.ledger) in
      elim (Bool-cases (text_eq (name c) m)) [
        | inr ne ↦
            carry_out-IsGuarded i (name c) key d.target d.action (record w { ledger = l })
              (λ e. inl ne) (λ e. inl ne)
              (IsGuarded-same w (record w { ledger = l }) (follow-demand_ne i c key d w.ledger ne)
                g.late g)
        | inl eq ↦
            let same : name c ≡ m = (text_eq_iff (name c) m).0 eq in
            let there : w.ledger.demand (name c) ≡ some g.stamp =
              subst (λ n. w.ledger.demand n ≡ some g.stamp) (sym same) g.stored in
            let (u, stored, recent) =
              stamped-Recent i.now g.stamp t d.last_demand g.recent h (
                decide_map-Recent c limits r g.stamp (last_read (name c) w.ledger g.stamp there)) in
            let armed : IsGuarded (record w { ledger = l }) = record {
              stamp = u;
              stored = persist_demand_self (name c) d.last_demand _ eq ∙ stored;
              recent = recent;
              late = g.late;
            } in
            carry_out-IsGuarded i (name c) key d.target d.action (record w { ledger = l })
              (λ e. inr (inl (raised c limits r e)))
              (λ e.
                inr (
                  inr
                    (decided-IsLate i limits demands c key w.ledger g.stamp h k g.recent there e)))
              armed
      ]

  scale_found-IsGuarded :
      (i : Input) (limits : Limits) (demands : Demands) (c : MapConfig) (o : Option ScaleKey)
      (w : World)
      → t ≤ i.now
      → grace ≤ limits.demand_grace_secs
      → IsGuarded w
      → IsGuarded (scale_found i limits demands c o w)
  scale_found-IsGuarded i limits demands c none w h k g = g
  scale_found-IsGuarded i limits demands c (some key) w h k g =
      scale_key-IsGuarded i limits demands c key w h k g

  pub scale_maps-IsGuarded :
      (i : Input) (limits : Limits) (demands : Demands) (cs : List MapConfig) (w : World)
      → t ≤ i.now
      → grace ≤ limits.demand_grace_secs
      → IsGuarded w
      → IsGuarded (scale_maps i limits demands cs w)
  unfolding scale_maps
  scale_maps-IsGuarded i limits demands [] w h k g = g
  scale_maps-IsGuarded i limits demands (c ∷ cs) w h k g =
      scale_maps-IsGuarded i limits demands cs _ h k
        (scale_found-IsGuarded i limits demands c (tracked i.mock c.map_name) w h k g)

  command_if-IsGuarded :
      (i : Input) (a : Pool.PoolAction) (w : World) → IsGuarded w → IsGuarded (command_if i a w)
  unfolding record_action
  command_if-IsGuarded i (Pool.spawn pid) w g =
      IsGuarded-same w (command_if i (Pool.spawn pid) w) refl (tt, g.late) g
  command_if-IsGuarded i (Pool.reap pid) w g =
      IsGuarded-same w (command_if i (Pool.reap pid) w) refl (tt, g.late) g
  command_if-IsGuarded i Pool.hold w g = g

  dims-IsGuarded : (s : DimState) (w : World) → IsGuarded w → IsGuarded (on_ledger (set_dims s) w)
  dims-IsGuarded s w g = IsGuarded-same w (on_ledger (set_dims s) w) refl g.late g

  dd_rows-IsGuarded :
      (i : Input) (l : Pool.PoolLimits) (o : Option (List Pool.Dim)) (w : World)
      → IsGuarded w
      → IsGuarded (dd_rows i l o w)
  dd_rows-IsGuarded i l none w g = g
  dd_rows-IsGuarded i l (some rows) w g =
      let s = settle_spawn i.now rows w.ledger.dims w.ledger.dims.spawning_pid in
      let d =
        Pool.decide_dimension_pool l rows i.now (parse_timers s.idle) (parse_iso s.last_spawn)
          s.spawning_pid in
      command_if-IsGuarded i d.action (on_ledger (set_dims (decided_dims d s)) w)
        (dims-IsGuarded (decided_dims d s) w g)

  sweep-IsGuarded : (o : Option ℕ) (w : World) → IsGuarded w → IsGuarded (sweep o w)
  unfolding record_action
  sweep-IsGuarded none w g = g
  sweep-IsGuarded (some n) w g =
      let v = on_ledger (record_action (codes "farm_state") swept) w in
      if-IsGuarded (n == 0) w v g (IsGuarded-same w v refl g.late g)

  pub notify-IsGuarded : (cfg : Config) (old w : World) → IsGuarded w → IsGuarded (notify cfg old w)
  notify-IsGuarded cfg old w g =
      if-IsGuarded (cfg.webhook && ltb (moves old.trace) (moves w.trace)) _ w
        (IsGuarded-same w (record w { trace = notified ∷ w.trace }) refl (tt, g.late) g) g

  pub after_maps-IsGuarded :
      (cfg : Config) (i : Input) (old w : World) → IsGuarded w → IsGuarded (after_maps cfg i old w)
  unfolding run_dd_tick
  after_maps-IsGuarded cfg i old w g =
      let dd = if cfg.deep_desert then run_dd_tick i cfg.pool w else w in
      notify-IsGuarded cfg old (sweep i.swept_rows dd) (
        sweep-IsGuarded i.swept_rows dd (
          if-IsGuarded cfg.deep_desert (run_dd_tick i cfg.pool w) w
            (dd_rows-IsGuarded i cfg.pool i.rows w g) g))
