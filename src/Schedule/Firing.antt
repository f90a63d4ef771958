-- ===== src/Schedule/Firing.antt =====
-- The firing of a pending restart, step by step: what it asks for and what it leaves stored.
use pelican_egg_dune_awakeni.Base.{
  ℕ, ◌+◌, ◌-◌, ◌≡◌, ◌∙◌, refl, ap, Bool, false, not, ◌&&◌, List, Option, none, some, leb, ltb, inl,
  inr, Bool-cases, if◌then◌else◌, arith,
}
use pelican_egg_dune_awakeni.Schedule.Action.{
  Env, World, pure, gets, ask, modify, record_now, ◌>>=◌,
}
use pelican_egg_dune_awakeni.Schedule.Due.{RestartConfig}
use pelican_egg_dune_awakeni.Schedule.Leaves.{Leaves, Leaves-bind, Leaves-pure, bind_then}
use pelican_egg_dune_awakeni.Schedule.Ledger.{
  StateKey, pending_restart_at, pending_warn_at, pending_warn_spec, record_run,
}
use pelican_egg_dune_awakeni.Schedule.Quiet.{
  asked, view, warn_step-Leaves, backup_step-Leaves, certificate_step-Leaves, tasks_step-Leaves,
}
use pelican_egg_dune_awakeni.Schedule.Runners.{pelican_restart}
use pelican_egg_dune_awakeni.Schedule.Tick.{
  TickAction, Config, disarm, instant, fire, discard, trigger, record_failure, arm_due, arm_slot,
  other_steps, later_steps, fire_or_other, stale_restart,
}

-- a pending restart has come and is not stale, and there is a panel to ask
abbrev pub fires : Env → Option ℕ → ℕ → Bool
fires env none now = false
fires env (some pend) now = leb pend now && not (ltb stale_restart (now - pend)) && env.configured

abbrev pub count : Bool → ℕ
count b = if b then 1 else 0

abbrev pub pending : World → Option ℕ
pending w = instant pending_restart_at w.ledger

-- no intent of a restart is stored
abbrev pub IsDisarmed : World → Type 0
IsDisarmed w =
    (w.ledger.state pending_restart_at ≡ none)
    × (w.ledger.state pending_warn_at ≡ none)
    × (w.ledger.state pending_warn_spec ≡ none)

module _ (env : Env) where
  trigger-asked :
      (pend : ℕ) (w : World) → asked (trigger env pend w).1 ≡ asked w + count env.configured
  unfolding trigger pelican_restart record_failure ◌>>=◌ ask pure record_now
  trigger-asked pend w = ground arith

  trigger-state :
      (pend : ℕ) (w : World) (k : StateKey)
      → (trigger env pend w).1.ledger.state k ≡ w.ledger.state k
  unfolding trigger pelican_restart record_failure ◌>>=◌ ask pure record_now record_run
  trigger-state pend w k = ground arith

  discard-asked : (pend now : ℕ) (w : World) → asked (discard env pend now w).1 ≡ asked w
  unfolding discard ◌>>=◌ pure record_now
  discard-asked pend now w = ground arith

  discard-state :
      (pend now : ℕ) (w : World) (k : StateKey)
      → (discard env pend now w).1.ledger.state k ≡ w.ledger.state k
  unfolding discard ◌>>=◌ pure record_now record_run
  discard-state pend now w k = ground arith

  pub fire-asked :
      (pend now : ℕ) (w : World)
      → asked (fire env pend now w).1
        ≡ asked w + count (not (ltb stale_restart (now - pend)) && env.configured)
  unfolding fire ◌>>=◌ modify
  fire-asked pend now w =
      let w' = record w { ledger = disarm w.ledger } in
      elim (Bool-cases (ltb stale_restart (now - pend))) [
        | inl e ↦ rw e (discard-asked pend now w' ∙ omega arith)
        | inr e ↦ rw e (trigger-asked pend w')
      ]

  fire-state :
      (pend now : ℕ) (w : World) (k : StateKey)
      → (fire env pend now w).1.ledger.state k ≡ (disarm w.ledger).state k
  unfolding fire ◌>>=◌ modify
  fire-state pend now w k =
      let w' = record w { ledger = disarm w.ledger } in
      elim (Bool-cases (ltb stale_restart (now - pend))) [
        | inl e ↦ rw e (discard-state pend now w' k)
        | inr e ↦ rw e (trigger-state pend w' k)
      ]

  pub fire-IsDisarmed : (pend now : ℕ) (w : World) → IsDisarmed (fire env pend now w).1
  fire-IsDisarmed pend now w =
      let at = fire-state pend now w in
      unfold disarm in (at pending_restart_at, at pending_warn_at, at pending_warn_spec)

  -- the steps behind the arming of a slot
  later_steps-Leaves :
      (p : Option ℕ) (cfg : Config) (now : ℕ) (armed : List TickAction)
      → Leaves view (later_steps env cfg now (p, armed))
  unfolding later_steps
  later_steps-Leaves p cfg now armed = Leaves-bind _ _ (warn_step-Leaves env p now) λ a.
      Leaves-bind _ _ (backup_step-Leaves env cfg.backup now) λ b.
        Leaves-bind _ _ (certificate_step-Leaves env now)
          λ c. Leaves-bind _ _ (tasks_step-Leaves env now cfg.tasks) (λ d. Leaves-pure _)

  arm_slot-asked :
      (p : Option ℕ) (now : ℕ) (r : RestartConfig) (w : World)
      → asked (arm_slot env p now r w).1 ≡ asked w
  unfolding arm_slot arm_due ◌>>=◌ gets modify pure record_now
  arm_slot-asked p now r w = ground arith

  pub other_steps-view :
      (p : Option ℕ) (cfg : Config) (now : ℕ) (w : World)
      → view (other_steps env p cfg now w).1 ≡ view (arm_slot env p now cfg.restart w).1
  unfolding other_steps
  other_steps-view p cfg now w =
      bind_then _ _ w refl (λ (q, armed). later_steps-Leaves q cfg now armed)

  pub other_steps-asked :
      (p : Option ℕ) (cfg : Config) (now : ℕ) (w : World)
      → asked (other_steps env p cfg now w).1 ≡ asked w
  other_steps-asked p cfg now w =
      ap (λ v. v.0) (other_steps-view p cfg now w) ∙ arm_slot-asked p now cfg.restart w

  pub fire_or_other-asked :
      (p : Option ℕ) (cfg : Config) (now : ℕ) (w : World)
      → asked (fire_or_other env p cfg now w).1 ≡ asked w + count (fires env p now)
  fire_or_other-asked none cfg now w = other_steps-asked none cfg now w ∙ omega arith
  fire_or_other-asked (some p) cfg now w = elim (Bool-cases (leb p now)) [
    | inl e ↦ rw e (fire-asked p now w)
    | inr e ↦ rw e (other_steps-asked (some p) cfg now w ∙ omega arith)
  ]
