-- ===== src/Schedule/Announce.antt =====
-- The in-game countdown of an armed restart, and its cancelling.
use pelican_egg_dune_awakeni.Base.{
  ℕ, ◌+◌, ◌-◌, ◌*◌, ◌/◌, ◌≡◌, ◌∙◌, refl, true, List, ◌∷◌, Option, none, some, max, inl, inr,
  Bool-cases, if◌then◌else◌, arith,
}
use pelican_egg_dune_awakeni.Schedule.Action.{
  Event, ran, shutdown_restart, shutdown_cancel, Env, World, ok, pure, gets, ask, modify,
  record_now, ◌>>=◌,
}
use pelican_egg_dune_awakeni.Base.Int.{ℤ, pos}
use pelican_egg_dune_awakeni.Schedule.Due.{RestartConfig, restart_due, at_least_zero, at_least_one}
use pelican_egg_dune_awakeni.Schedule.Firing.{IsDisarmed}
use pelican_egg_dune_awakeni.Schedule.Ledger.{
  restart_warn, pending_restart_at, pending_warn_at, pending_warn_spec, stamp, record_run,
  get_state, set_state, clear_state, freq_of, last,
}
use pelican_egg_dune_awakeni.Schedule.Quiet.{asked}
use pelican_egg_dune_awakeni.Schedule.Restart.{run_tick-asked}
use pelican_egg_dune_awakeni.Schedule.Runners.{broadcast_restart, publish}
use pelican_egg_dune_awakeni.Schedule.Tick.{
  TickAction, Config, disarm, instant, arm_restart, arm_due, arm_slot, announce, warn_step,
  window_open, cancel_restart, announced, run_tick,
}
use pelican_egg_dune_awakeni.Schedule.Time.{second, iso, parse_iso}

-- the instant from which the stored announcement is due
abbrev pub warn_from : World → Option ℕ
warn_from w = instant pending_warn_at w.ledger

-- the command that tells players of a restart at `pend`
abbrev pub countdown : ℕ → ℕ → World → Event
countdown pend now w =
    ran (
      shutdown_restart (max ((pend - now) / second) 1) (freq_of (w.ledger.state pending_warn_spec)))

module _ (env : Env) where
  announce-trace :
      (pend now : ℕ) (w : World)
      → (announce env pend now w).1.trace ≡ countdown pend now w ∷ w.trace
  unfolding announce broadcast_restart publish ◌>>=◌ gets ask pure modify record_now get_state
      clear_state
  announce-trace pend now w = ground arith

  -- For a pending restart the countdown is published exactly when its window is open, with the
  -- seconds that remain until the restart, and at least one.
  warn_step-trace :
      (pend now : ℕ) (w : World)
      → (warn_step env (some pend) now w).1.trace ≡ (
          if window_open env (some pend) (warn_from w) now
          then countdown pend now w ∷ w.trace
          else w.trace)
  unfolding warn_step ◌>>=◌ gets pure
  warn_step-trace pend now w = elim (Bool-cases (window_open env (some pend) (warn_from w) now)) [
    | inl e ↦ rw e (announce-trace pend now w)
    | inr e ↦ rw e
  ]

  announce-ok :
      (pend now : ℕ) (w : World) {acts : List TickAction}
      → (announce env pend now w).0 ≡ ok acts
      → warn_from (announce env pend now w).1 ≡ none
  unfolding announce broadcast_restart publish ◌>>=◌ gets ask pure modify record_now record_run
      get_state clear_state instant parse_iso
  announce-ok pend now w r = ground arith

  warn_step-ok :
      (pend now : ℕ) (w : World) {acts : List TickAction}
      → window_open env (some pend) (warn_from w) now ≡ true
      → (warn_step env (some pend) now w).0 ≡ ok acts
      → warn_from (warn_step env (some pend) now w).1 ≡ none
  unfolding warn_step ◌>>=◌ gets
  warn_step-ok pend now w o = rw o (announce-ok pend now w)

  -- After the step has published a countdown and returned, another such step publishes none.
  warn_step_once :
      (pend now next later : ℕ) (w : World) {acts : List TickAction}
      → window_open env (some pend) (warn_from w) now ≡ true
      → (warn_step env (some pend) now w).0 ≡ ok acts
      → (warn_step env (some next) later (warn_step env (some pend) now w).1).1.trace
        ≡ (warn_step env (some pend) now w).1.trace
  warn_step_once pend now next later w o r =
      let w' = (warn_step env (some pend) now w).1 in
      rw (warn_step-trace next later w') (rw (warn_step-ok pend now w o r))

  -- the world in which a restart has just been armed with its whole lead
  abbrev armed : ℕ → ℕ → ℤ → World → World
  armed now lead freq w = record w {
    ledger = arm_restart (now + lead * second) (pos lead) freq "Restart" w.ledger;
  }

  armed-announced :
      (now lead : ℕ) (freq : ℤ) (w : World)
      → (warn_step env (some (now + lead * second)) now (armed now lead freq w)).1.trace
        ≡ ran (shutdown_restart (max lead 1) (at_least_one freq)) ∷ w.trace
  unfolding arm_restart set_state instant parse_iso get_state iso
  armed-announced now lead freq w =
      warn_step-trace (now + lead * second) now (armed now lead freq w) ∙ ground arith

  -- announcing leaves what is pending as it is
  warn_step-pending :
      (pend : Option ℕ) (now : ℕ) (w : World)
      → (warn_step env pend now w).1.ledger.state pending_restart_at
        ≡ w.ledger.state pending_restart_at
  unfolding warn_step announce broadcast_restart publish ◌>>=◌ gets ask pure modify record_now
      record_run get_state clear_state
  warn_step-pending none now w = ground arith
  warn_step-pending (some pend) now w = ground arith

  armed-pending :
      (now lead : ℕ) (freq : ℤ) (w : World)
      → (armed now lead freq w).ledger.state pending_restart_at
        ≡ some (stamp (iso (now + lead * second)))
  unfolding arm_restart set_state
  armed-pending now lead freq w = refl

  -- A slot that comes due while no restart is pending, with the panel's credentials set, is armed
  -- and announced in the same tick: its restart is stored for the instant at which its whole lead
  -- is over, and players are told of it with this lead.
  pub arm_slot-announced :
      (now : ℕ) (r : RestartConfig) (w : World)
      → restart_due r now (last restart_warn w.ledger) ≡ true
      → env.configured ≡ true
      → (((do slot ← arm_slot env none now r; warn_step env slot.0 now) w).1.ledger.state
            pending_restart_at
          ≡ some (stamp (iso (now + at_least_zero r.warn_lead_secs * second))))
        × (((do slot ← arm_slot env none now r; warn_step env slot.0 now) w).1.trace
            ≡ ran (
                shutdown_restart
                  (max (at_least_zero r.warn_lead_secs) 1)
                  (at_least_one r.warn_freq_secs))
              ∷ w.trace)
  unfolding ◌>>=◌ arm_slot arm_due gets modify pure
  arm_slot-announced now r w d c =
      let lead = at_least_zero r.warn_lead_secs in
      let u = armed now lead r.warn_freq_secs w in
      simp (d, c)
        (
          warn_step-pending (some (now + lead * second)) now u
              ∙ armed-pending now lead r.warn_freq_secs w,
          armed-announced now lead r.warn_freq_secs w,
        )

  cancel_restart-IsDisarmed : (w : World) → IsDisarmed (cancel_restart env w).1
  unfolding cancel_restart publish ◌>>=◌ gets ask pure modify disarm
  cancel_restart-IsDisarmed w = ground arith

  cancel_restart-trace :
      (w : World)
      → (cancel_restart env w).1.trace
        ≡ (if announced env w.ledger then ran shutdown_cancel ∷ w.trace else w.trace)
  unfolding cancel_restart publish ◌>>=◌ gets ask pure modify
  cancel_restart-trace w = ground arith

  cancel_restart-asked : (w : World) → asked (cancel_restart env w).1 ≡ asked w
  unfolding cancel_restart publish ◌>>=◌ gets ask pure modify
  cancel_restart-asked w = ground arith

  disarmed-asked :
      (cfg : Config) (now : ℕ) (w : World)
      → w.ledger.state pending_restart_at ≡ none
      → asked (run_tick env cfg now w).1 ≡ asked w
  unfolding instant get_state parse_iso
  disarmed-asked cfg now w e = run_tick-asked env cfg now w ∙ ground arith

  -- Cancelling disarms the restart whatever the script answers, so that a tick after it asks for
  -- none, and withdraws the countdown from the players exactly if it had gone out.
  cancel_restart_lem :
      (w : World) (cfg : Config) (now : ℕ)
      → IsDisarmed (cancel_restart env w).1
        × ((cancel_restart env w).1.trace
            ≡ (if announced env w.ledger then ran shutdown_cancel ∷ w.trace else w.trace))
        × (asked (run_tick env cfg now (cancel_restart env w).1).1 ≡ asked w)
  cancel_restart_lem w cfg now =
      let off = cancel_restart-IsDisarmed w in
      (
        off,
        cancel_restart-trace w,
        disarmed-asked cfg now (cancel_restart env w).1 off.0 ∙ cancel_restart-asked w,
      )
