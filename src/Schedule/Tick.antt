-- ===== src/Schedule/Tick.antt =====
-- `run_tick`, `arm_restart` and `cancel_restart`.
use pelican_egg_dune_awakeni.Base.{
  ℕ, ◌+◌, ◌-◌, ◌*◌, ◌/◌, Bool, true, false, not, ◌&&◌, List, [], ◌∷◌, ◌++◌, Option, none, some,
  String, leb, ltb, max, is_some, if◌then◌else◌,
}
use pelican_egg_dune_awakeni.Base.Int.{ℤ, pos}
use pelican_egg_dune_awakeni.Schedule.Action.{
  Event, shutdown_cancel, renewal_begun, Env, World, M, pure, gets, catch, modify, ok, record_now,
  ◌>>=◌, ◌>>◌,
}
use pelican_egg_dune_awakeni.Schedule.Due.{
  RestartConfig, restart_due, at_least_zero, at_least_one, BackupConfig, backup_due, TaskSchedule,
  interval, task_due,
}
use pelican_egg_dune_awakeni.Schedule.Ledger.{
  RunKey, restart, restart_warn, backup, certificate, task, Status, ok_status, skipped_status,
  error_status, Detail, discarded_stale, triggered, credentials_unset, not_configured, checking,
  renewal_started, task_raised, cancelled_quietly, StateKey, pending_restart_at, pending_warn_at,
  pending_warn_spec, stamp, spec, Ledger, get_state, set_state, clear_state, last, last_settled,
  as_stamp, freq_of,
}
use pelican_egg_dune_awakeni.Schedule.Runners.{
  Task, publish, run_backup, broadcast_restart, pelican_restart, run_task, status_of,
  publish_outcome,
}
use pelican_egg_dune_awakeni.Schedule.Time.{second, iso, parse_iso}

-- a `(task, ok, detail)` of the list that a tick returns
pub record TickAction : Type 0 where
  pub key : RunKey
  pub done : Bool
  pub detail : Detail

pub record Config : Type 0 where
  pub restart : RestartConfig
  pub backup : BackupConfig
  pub tasks : List Task

-- STALE_RESTART_SECS, at its default
abbrev pub stale_restart : ℕ
stale_restart = 600000000

-- CERT_CHECK_EVERY_SECS
abbrev pub cert_check_every : ℕ
cert_check_every = 43200000000

abbrev pub one : RunKey → Bool → Detail → List TickAction
one key done detail = record { key = key; done = done; detail = detail } ∷ []

-- `_parse_iso(ledger.get_state(k))`
unfoldable pub instant : StateKey → Ledger → Option ℕ
unfolding get_state parse_iso
instant k l = parse_iso (as_stamp (get_state k l))

-- the three state keys of an armed restart
unfoldable pub disarm : Ledger → Ledger
unfolding clear_state
disarm l =
    clear_state pending_warn_spec (clear_state pending_warn_at (clear_state pending_restart_at l))

-- `arm_restart`, with its window and frequency in seconds
unfoldable pub arm_restart : ℕ → ℤ → ℤ → String → Ledger → Ledger
unfolding set_state iso
arm_restart restart_at warn_window_secs warn_freq_secs stype l =
    let window = at_least_zero warn_window_secs * second in
    set_state pending_warn_spec (spec stype (at_least_one warn_freq_secs)) (
      set_state pending_warn_at (stamp (iso (restart_at - window)))
        (set_state pending_restart_at (stamp (iso restart_at)) l))

abbrev pub is_ok : Status → Bool
is_ok ok_status = true
is_ok _ = false

abbrev pub elapsed_at_least : Option ℕ → ℕ → ℕ → Bool
elapsed_at_least none now every = true
elapsed_at_least (some t) now every = leb (t + every) now

module _ (env : Env) where
  unfoldable pub discard : ℕ → ℕ → M (List TickAction)
  discard pend now = do
    let detail = discarded_stale pend ((now - pend) / second)
    record_now env restart skipped_status detail
    pure (one restart false detail)

  unfoldable pub record_failure : Bool → Detail → M (Unit {0})
  record_failure true detail = pure tt
  record_failure false detail = record_now env restart error_status detail

  -- the attempt is on record before the call
  unfoldable pub trigger : ℕ → M (List TickAction)
  trigger pend = do
    record_now env restart ok_status (triggered pend)
    (done, detail) ← pelican_restart env
    record_failure done detail
    pure (one restart done detail)

  -- a pending restart whose time has come: the intent is consumed first
  unfoldable pub fire : ℕ → ℕ → M (List TickAction)
  fire pend now = do
    modify disarm
    if ltb stale_restart (now - pend) then discard pend now else trigger pend

  unfoldable pub arm_due : ℕ → RestartConfig → M (Option ℕ × List TickAction)
  arm_due now r =
      let lead = at_least_zero r.warn_lead_secs in
      if not env.configured
      then (do
        record_now env restart_warn skipped_status credentials_unset
        pure (none, one restart_warn false not_configured))
      else (do
        modify (arm_restart (now + lead * second) (pos lead) r.warn_freq_secs "Restart")
        pure (some (now + lead * second), []))

  -- arms a due slot; returns what is then pending
  unfoldable pub arm_slot : Option ℕ → ℕ → RestartConfig → M (Option ℕ × List TickAction)
  arm_slot (some pend) now r = pure (some pend, [])
  arm_slot none now r = do
    warned ← gets (last restart_warn)
    if not (restart_due r now warned) then pure (none, []) else arm_due now r

  unfoldable pub announce : ℕ → ℕ → M (List TickAction)
  announce pend now = do
    said_spec ← gets (get_state pending_warn_spec)
    (done, detail) ← broadcast_restart env (max ((pend - now) / second) 1) (freq_of said_spec)
    modify (clear_state pending_warn_at)
    record_now env restart_warn (status_of env done) detail
    pure (one restart_warn done detail)

  abbrev pub window_open : Option ℕ → Option ℕ → ℕ → Bool
  window_open (some pend) (some warn_at) now = leb warn_at now
  window_open _ _ now = false

  abbrev pub announce_if : Bool → Option ℕ → ℕ → M (List TickAction)
  announce_if true (some pend) now = announce pend now
  announce_if _ _ now = pure []

  unfoldable pub warn_step : Option ℕ → ℕ → M (List TickAction)
  warn_step pend now = do
    warn_at ← gets (instant pending_warn_at)
    announce_if (window_open pend warn_at now) pend now

  unfoldable pub backup_step : BackupConfig → ℕ → M (List TickAction)
  backup_step b now = do
    backed ← gets (last backup)
    if not (backup_due b now backed) then pure [] else (do
      (done, detail) ← run_backup env
      record_now env backup (status_of env done) detail
      pure (one backup done detail))

  unfoldable pub certificate_due : Option ℕ → ℕ → List Event → Bool
  certificate_due checked now t =
      if not env.acme_backend
      then false
      else if not (env.certificate_file t)
      then true
      else elapsed_at_least (parse_iso checked) now cert_check_every

  -- the thread is started only if no renewal is running; what it does is not part of the tick
  unfoldable pub renew_in_background : M (Unit {0})
  renew_in_background w =
      (ok tt, if env.renewal_idle w.trace then record w { trace = renewal_begun ∷ w.trace } else w)

  unfoldable pub begin_renewal : M (List TickAction)
  begin_renewal = do
    record_now env certificate skipped_status checking
    renew_in_background
    pure (one certificate true renewal_started)

  unfoldable pub certificate_step : ℕ → M (List TickAction)
  certificate_step now w =
      (if not (certificate_due (last certificate w.ledger) now w.trace)
          then pure []
          else begin_renewal)
        w

  -- the run by which a task is deduplicated
  abbrev pub dedupe : TaskSchedule → RunKey → Ledger → Option ℕ
  dedupe (interval every) key l = last key l
  dedupe _ key l = last_settled key l

  unfoldable pub run_and_record : Task → M (List TickAction)
  run_and_record t = do
    (status, detail) ← run_task env t.kind
    record_now env (task t.id) status detail
    pure (one (task t.id) (is_ok status) detail)

  unfoldable pub task_step : ℕ → Task → M (List TickAction)
  task_step now t = do
    run ← gets (dedupe t.schedule (task t.id))
    if not (task_due t.enabled t.schedule now run)
        then pure []
        else catch (run_and_record t) (do
          record_now env (task t.id) error_status task_raised
          pure (one (task t.id) false task_raised))

  unfoldable pub tasks_step : ℕ → List Task → M (List TickAction)
  tasks_step now [] = pure []
  tasks_step now (t ∷ ts) = do
    first ← task_step now t
    rest ← tasks_step now ts
    pure (first ++ rest)

  -- behind the arming, with what it returned
  unfoldable pub later_steps : Config → ℕ → Option ℕ × List TickAction → M (List TickAction)
  later_steps cfg now (pending, armed) = do
    warned ← warn_step pending now
    backed ← backup_step cfg.backup now
    renewed ← certificate_step now
    tasked ← tasks_step now cfg.tasks
    pure (armed ++ (warned ++ (backed ++ (renewed ++ tasked))))

  unfoldable pub other_steps : Option ℕ → Config → ℕ → M (List TickAction)
  other_steps pend cfg now = do slot ← arm_slot pend now cfg.restart; later_steps cfg now slot

  abbrev pub fire_or_other : Option ℕ → Config → ℕ → M (List TickAction)
  fire_or_other none cfg now = other_steps none cfg now
  fire_or_other (some pend) cfg now =
      if leb pend now then fire pend now else other_steps (some pend) cfg now

  unfoldable pub run_tick : Config → ℕ → M (List TickAction)
  run_tick cfg now = do pend ← gets (instant pending_restart_at); fire_or_other pend cfg now

  -- the scan loop: each tick goes on from the world that the last one left, however it ended
  unfoldable pub scan_loop : List (Config × ℕ) → World → World
  scan_loop [] w = w
  scan_loop ((cfg, now) ∷ ticks) w = scan_loop ticks (run_tick cfg now w).1

  -- whether an announcement is out: no announcement is due any more, but the restart is
  abbrev pub announced : Ledger → Bool
  announced l =
      not (is_some (get_state pending_warn_at l)) && is_some (get_state pending_restart_at l)

  unfoldable pub cancel_restart : M (Bool × Detail)
  cancel_restart = do
    aloud ← gets announced
    modify disarm
    if not aloud
        then pure (true, cancelled_quietly)
        else (do p ← publish env shutdown_cancel; pure (publish_outcome p))
