-- ===== src/Schedule/Quiet.antt =====
-- Of the actions of a tick only the firing of a pending restart asks the panel for one, and only it
-- and the arming of a slot touch the stored intent: all others leave both as they are.
use pelican_egg_dune_awakeni.Base.{
  ℕ, ◌+◌, ◌≡◌, refl, ap, Bool, true, false, not, List, [], ◌∷◌, Option, none, some, arith,
}
use pelican_egg_dune_awakeni.Schedule.Action.{Event, asked_restart, Env, World, modify, record_now}
use pelican_egg_dune_awakeni.Schedule.Due.{BackupConfig}
use pelican_egg_dune_awakeni.Schedule.Asking.{
  IsOther, IsBlind, run_backup-Leaves, broadcast_restart-Leaves, run_task-Leaves,
}
use pelican_egg_dune_awakeni.Schedule.Leaves.{
  Leaves, Leaves-bind, Leaves-if, Leaves-pure, Leaves-gets, leaves_rules,
}
use pelican_egg_dune_awakeni.Schedule.Ledger.{
  RunKey, certificate, last, Status, Detail, StateValue, pending_restart_at, pending_warn_at,
  record_run, clear_state,
}
use pelican_egg_dune_awakeni.Schedule.Runners.{Task}
use pelican_egg_dune_awakeni.Schedule.Tick.{
  announce, announce_if, warn_step, backup_step, certificate_due, begin_renewal, window_open,
  renew_in_background, certificate_step, run_and_record, task_step, tasks_step,
}

-- how often the panel was asked for a restart
abbrev pub requests : List Event → ℕ
requests [] = 0
requests (asked_restart ∷ es) = requests es + 1
requests (_ ∷ es) = requests es

abbrev pub asked : World → ℕ
asked w = requests w.trace

requests_other : (e : Event) (es : List Event) → IsOther e → requests (e ∷ es) ≡ requests es
requests_other asked_restart es h = absurd h
requests_other _ es h = refl

-- what the theorems watch: the requests made, and the stored intent
abbrev pub view : World → ℕ × Option StateValue
view w = (asked w, w.ledger.state pending_restart_at)

view-IsBlind : IsBlind view
view-IsBlind e w h = ap (λ n. (n, w.ledger.state pending_restart_at)) (requests_other e w.trace h)

pub record_now-Leaves :
    (env : Env) (k : RunKey) (s : Status) (d : Detail) → Leaves view (record_now env k s d)
unfolding record_now record_run
record_now-Leaves env k s d = record { at = λ w. refl }

module _ (env : Env) where
  pub run_and_record-Leaves : (t : Task) → Leaves view (run_and_record env t)
  unfolding run_and_record
  run_and_record-Leaves t =
      search (leaves_rules, record_now-Leaves, run_task-Leaves view view-IsBlind)

  pub task_step-Leaves : (now : ℕ) (t : Task) → Leaves view (task_step env now t)
  unfolding task_step
  task_step-Leaves now t = search (leaves_rules, record_now-Leaves, run_and_record-Leaves) depth 8

  pub tasks_step-Leaves : (now : ℕ) (ts : List Task) → Leaves view (tasks_step env now ts)
  unfolding tasks_step
  tasks_step-Leaves now [] = Leaves-pure []
  tasks_step-Leaves now (t ∷ ts) =
      Leaves-bind _ _ (task_step-Leaves now t)
        λ a. Leaves-bind _ _ (tasks_step-Leaves now ts) (λ b. Leaves-pure _)

  pub renew_in_background-Leaves : Leaves view (renew_in_background env)
  unfolding renew_in_background
  renew_in_background-Leaves = record { at = λ w. ground arith }

  pub renewal-Leaves : Leaves view (begin_renewal env)
  unfolding begin_renewal
  renewal-Leaves = search (leaves_rules, record_now-Leaves, renew_in_background-Leaves)

  pub certificate_step-Leaves : (now : ℕ) → Leaves view (certificate_step env now)
  unfolding certificate_step
  certificate_step-Leaves now = record {
    at = λ w.
        (Leaves-if (not (certificate_due env (last certificate w.ledger) now w.trace)) _ _
            (Leaves-pure []) renewal-Leaves).at
          w;
  }

  pub backup_step-Leaves : (b : BackupConfig) (now : ℕ) → Leaves view (backup_step env b now)
  unfolding backup_step
  backup_step-Leaves b now =
      search (leaves_rules, record_now-Leaves, run_backup-Leaves view view-IsBlind) depth 8

  pub disannounce-Leaves : Leaves view (modify (clear_state pending_warn_at))
  unfolding modify clear_state
  disannounce-Leaves = record { at = λ w. refl }

  pub announce-Leaves : (p now : ℕ) → Leaves view (announce env p now)
  unfolding announce
  announce-Leaves p now =
      search
        (
          leaves_rules,
          record_now-Leaves,
          broadcast_restart-Leaves view view-IsBlind,
          disannounce-Leaves,
        )
        depth 8

  pub announce_if-Leaves :
      (b : Bool) (p : Option ℕ) (now : ℕ) → Leaves view (announce_if env b p now)
  announce_if-Leaves true (some p) now = announce-Leaves p now
  announce_if-Leaves true none now = Leaves-pure []
  announce_if-Leaves false p now = Leaves-pure []

  pub warn_step-Leaves : (p : Option ℕ) (now : ℕ) → Leaves view (warn_step env p now)
  unfolding warn_step
  warn_step-Leaves p now =
      Leaves-bind _ _ (Leaves-gets _) (λ o. announce_if-Leaves (window_open env p o now) p now)
