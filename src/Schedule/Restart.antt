-- ===== src/Schedule/Restart.antt =====
-- When a tick asks the panel to restart the container, and that it does so at most once for each
-- arming, whatever happens to the process.
use pelican_egg_dune_awakeni.Base.{
  ℕ, ◌+◌, ◌≤◌, ◌≡◌, refl, ap, Bool, true, not, ◌&&◌, List, [], ◌∷◌, Option, none, some, leb, inl,
  inr, Bool-cases, is_some, arith,
}
use pelican_egg_dune_awakeni.Schedule.Action.{Env, World, pure, gets, modify, record_now, ◌>>=◌}
use pelican_egg_dune_awakeni.Schedule.Due.{RestartConfig, restart_due}
use pelican_egg_dune_awakeni.Schedule.Ledger.{restart_warn, record_run, get_state, as_stamp, last}
use pelican_egg_dune_awakeni.Schedule.Quiet.{asked}
use pelican_egg_dune_awakeni.Schedule.Tick.{
  Config, instant, fire, arm_due, arm_slot, other_steps, fire_or_other, run_tick, scan_loop,
}
use pelican_egg_dune_awakeni.Schedule.Time.{parse_iso}
use pelican_egg_dune_awakeni.Schedule.Firing.{
  fires, count, pending, IsDisarmed, fire_or_other-asked, fire-IsDisarmed, other_steps-view,
}

module _ (env : Env) where
  -- A tick asks the panel for a restart exactly when the pending restart has come and is not
  -- stale, and the panel's credentials are set; and it asks once.
  pub run_tick-asked :
      (cfg : Config) (now : ℕ) (w : World)
      → asked (run_tick env cfg now w).1 ≡ asked w + count (fires env (pending w) now)
  unfolding run_tick ◌>>=◌ gets
  run_tick-asked cfg now w = fire_or_other-asked env (pending w) cfg now w

  fire_or_other-IsDisarmed :
      (pend : ℕ) (cfg : Config) (now : ℕ) (w : World)
      → pend ≤ now
      → IsDisarmed (fire_or_other env (some pend) cfg now w).1
  fire_or_other-IsDisarmed pend cfg now w h =
      let e : leb pend now ≡ true = ground arith in rw e (fire-IsDisarmed env pend now w)

  -- Once a pending restart has come, the tick leaves nothing of it stored, whether the process
  -- survives the call or not.
  pub run_tick-IsDisarmed :
      (cfg : Config) (now : ℕ) (w : World) {pend : ℕ}
      → pending w ≡ some pend
      → pend ≤ now
      → IsDisarmed (run_tick env cfg now w).1
  unfolding run_tick ◌>>=◌ gets
  run_tick-IsDisarmed cfg now w {pend} e h = rw e (fire_or_other-IsDisarmed pend cfg now w h)

  -- the tick stores an intent of its own: a slot is due, none is pending, the panel can be asked
  abbrev pub arms : Config → ℕ → World → Bool
  arms cfg now w =
      not (is_some (pending w))
      && restart_due cfg.restart now (last restart_warn w.ledger)
      && env.configured

  arm_slot-pending :
      (p : Option ℕ) (now : ℕ) (r : RestartConfig) (w : World)
      → pending w ≡ p
      → count (is_some (pending (arm_slot env p now r w).1))
        ≤ count (is_some p)
          + count
              (not (is_some p) && restart_due r now (last restart_warn w.ledger) && env.configured)
  unfolding arm_slot arm_due ◌>>=◌ gets modify pure record_now record_run instant parse_iso
  arm_slot-pending (some p) now r w e = ground arith
  arm_slot-pending none now r w e = ground arith

  fire-pending : (pend now : ℕ) (w : World) → pending (fire env pend now w).1 ≡ none
  unfolding instant get_state parse_iso
  fire-pending pend now w = ap (λ v. parse_iso (as_stamp v)) (fire-IsDisarmed env pend now w).0

  other_steps-pending :
      (p : Option ℕ) (cfg : Config) (now : ℕ) (w : World)
      → pending (other_steps env p cfg now w).1 ≡ pending (arm_slot env p now cfg.restart w).1
  unfolding instant get_state
  other_steps-pending p cfg now w =
      ap (λ v. parse_iso (as_stamp v.1)) (other_steps-view env p cfg now w)

  count-fire_or_other :
      (p : Option ℕ) (cfg : Config) (now : ℕ) (w : World)
      → pending w ≡ p
      → count (fires env p now) + count (is_some (pending (fire_or_other env p cfg now w).1))
        ≤ count (is_some p)
          + count (
              not (is_some p)
              && restart_due cfg.restart now (last restart_warn w.ledger)
              && env.configured)
  count-fire_or_other none cfg now w e =
      rw (other_steps-pending none cfg now w)
        (omega (arith, arm_slot-pending none now cfg.restart w e))
  count-fire_or_other (some p) cfg now w e = elim (Bool-cases (leb p now)) [
    | inl f ↦ rw (f, fire-pending p now w) (ground arith)
    | inr f ↦
        rw (f, other_steps-pending (some p) cfg now w)
          (omega (arith, arm_slot-pending (some p) now cfg.restart w e))
  ]

  run_tick_lem :
      (cfg : Config) (now : ℕ) (w : World)
      → run_tick env cfg now w ≡ fire_or_other env (pending w) cfg now w
  unfolding run_tick ◌>>=◌ gets
  run_tick_lem cfg now w = refl

  run_tick-count :
      (cfg : Config) (now : ℕ) (w : World)
      → asked (run_tick env cfg now w).1 + count (is_some (pending (run_tick env cfg now w).1))
        ≤ asked w + count (is_some (pending w)) + count (arms cfg now w)
  run_tick-count cfg now w =
      let c = count-fire_or_other (pending w) cfg now w refl in
      rw (run_tick_lem cfg now w) (omega (arith, fire_or_other-asked env (pending w) cfg now w))

  -- how many of the ticks store an intent
  abbrev pub armings : List (Config × ℕ) → World → ℕ
  armings [] w = 0
  armings ((cfg, now) ∷ ticks) w = count (arms cfg now w) + armings ticks (run_tick env cfg now w).1

  -- Over any run of ticks, with any configurations, clocks, answers and deaths of the process,
  -- the panel is asked for at most as many restarts as were armed before it or by its ticks.
  pub scan_loop-asked :
      (ticks : List (Config × ℕ)) (w : World)
      → asked (scan_loop env ticks w) ≤ asked w + count (is_some (pending w)) + armings ticks w
  unfolding scan_loop
  scan_loop-asked [] w = omega arith
  scan_loop-asked ((cfg, now) ∷ ticks) w =
      omega (arith, run_tick-count cfg now w, scan_loop-asked ticks (run_tick env cfg now w).1)
