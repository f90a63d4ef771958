-- ===== src/Schedule/Tasks.antt =====
-- The generic tasks: each that is due leaves one run, none stops the others, and an unforced
-- scale-down spares the players.
use text.Mathlib.TextPositions.{eq_refl}
use pelican_egg_dune_awakeni.Base.{
  ℕ, ◌+◌, ◌/◌, ◌≤◌, ◌<◌, Bool, Bool-cases, inl, inr, if◌then◌else◌, ◌≡◌, ◌≢◌, refl, true, false,
  List, [], ◌∷◌, some, String, arith, ◌⊎◌,
}
use pelican_egg_dune_awakeni.Schedule.Action.{
  Event, fetched_status, patched, Env, World, ok, raised, killed, pure, gets, ask, catch,
  record_now, MapEntry, ◌>>=◌,
}
use pelican_egg_dune_awakeni.Schedule.Asking.{IsBlind, run_task-Leaves}
use pelican_egg_dune_awakeni.Schedule.Due.{TaskSchedule, daily, interval, other_kind, task_due}
use pelican_egg_dune_awakeni.Schedule.DueLaws.{Waits, schedule_due_used}
use pelican_egg_dune_awakeni.Schedule.Ledger.{
  Run, RunKey, task, record_run, Status, ok_status, skipped_status, error_status, Detail, Ledger,
  last_run, last_settled_run,
}
use pelican_egg_dune_awakeni.Schedule.Runners.{
  Task, ScaleKey, resolve_scale_key, run_scale_instance, scale_tracked, scale_key, scale_if_empty,
}
use pelican_egg_dune_awakeni.Schedule.Tick.{dedupe, run_and_record, task_step, tasks_step}
use pelican_egg_dune_awakeni.Schedule.Time.{day, iso}

-- how often replicas were set
abbrev pub patches : List Event → ℕ
patches [] = 0
patches (patched ns name n ∷ es) = patches es + 1
patches (_ ∷ es) = patches es

runs_of : World → List Run
runs_of w = w.ledger.runs

runs-IsBlind : IsBlind (λ w. w.ledger.runs)
runs-IsBlind e w h = refl

-- the newest run, if `key` is its key
abbrev pub Logged : RunKey → List Run → List Run → Type 0
Logged key old [] = ⊥
Logged key old (r ∷ rs) = (r.key ≡ key) × (rs ≡ old)

-- whether a run uses up the slot: one that failed leaves it to a daily task
abbrev pub consumes : TaskSchedule → Status → Bool
consumes (interval every) result = true
consumes _ ok_status = true
consumes _ skipped_status = true
consumes _ error_status = false

module _ (env : Env) where
  run_and_record-cases :
      (t : Task) (w : World)
      → ((run_and_record env t w).0 ≢ raised
          × (run_and_record env t w).0 ≢ killed
          × Logged (task t.id) w.ledger.runs (run_and_record env t w).1.ledger.runs)
        ⊎ (((run_and_record env t w).0 ≡ raised)
            × ((run_and_record env t w).1.ledger.runs ≡ w.ledger.runs))
        ⊎ ((run_and_record env t w).0 ≡ killed)
  unfolding run_and_record ◌>>=◌ record_now record_run pure
  run_and_record-cases t w =
      let same = (run_task-Leaves (λ w. w.ledger.runs) runs-IsBlind env t.kind).at w in ground arith

  -- A task that is due leaves exactly one new run under its key, also if its runner raises,
  -- unless the process dies in it.
  pub task_step-Logged :
      (now : ℕ) (t : Task) (w : World)
      → task_due t.enabled t.schedule now (dedupe env t.schedule (task t.id) w.ledger) ≡ true
      → (task_step env now t w).0 ≢ killed
      → Logged (task t.id) w.ledger.runs (task_step env now t w).1.ledger.runs
  unfolding task_step ◌>>=◌ gets catch record_now record_run pure
  task_step-Logged now t w due alive = ground (arith, run_and_record-cases t w)

  -- the run by which the task is then deduplicated
  dedupe-record_run :
      (s : TaskSchedule) (id : String) (result : Status) (detail : Detail) (at : ℕ) (l : Ledger)
      → dedupe env s (task id) (record_run (task id) result detail at l)
        ≡ (if consumes s result then some at else dedupe env s (task id) l)
  unfolding record_run last_run last_settled_run
  dedupe-record_run (interval every) id result detail at l = rw (eq_refl id) refl
  dedupe-record_run (daily time days) id ok_status detail at l = rw (eq_refl id) refl
  dedupe-record_run (daily time days) id skipped_status detail at l = rw (eq_refl id) refl
  dedupe-record_run (daily time days) id error_status detail at l = rw (eq_refl id) refl
  dedupe-record_run other_kind id ok_status detail at l = rw (eq_refl id) refl
  dedupe-record_run other_kind id skipped_status detail at l = rw (eq_refl id) refl
  dedupe-record_run other_kind id error_status detail at l = rw (eq_refl id) refl

  -- Let a run of a task that is due be recorded on the same day. If the task is daily and the run
  -- is ok or skipped, it is not due again on that day; if the run is an error, the task is due
  -- again whenever it would be without it. If it is on an interval, it is not due before the
  -- interval has passed since the recorded second, whatever the status.
  pub task_due_once :
      (enabled : Bool) (s : TaskSchedule) (id : String) (now later at : ℕ) (result : Status)
      (detail : Detail) (l : Ledger)
      → task_due enabled s now (dedupe env s (task id) l) ≡ true
      → now ≤ at
      → now / day ≡ at / day
      → Waits s at later
      → task_due enabled s later
          (dedupe env s (task id) (record_run (task id) result detail (iso at) l))
        ≡ (if consumes s result then false else task_due enabled s later (dedupe env s (task id) l))
  unfolding task_due
  task_due_once enabled s id now later at result detail l due h same w =
      let used =
        schedule_due_used s now later at (dedupe env s (task id) l) (ground arith) h same w in
      let run = dedupe-record_run s id result detail (iso at) l in
      elim (Bool-cases (consumes s result)) [
        | inl c ↦ rw (run, c) (ground (arith, used))
        | inr c ↦ rw (run, c) refl
      ]

  task_step-ne-raised : (now : ℕ) (t : Task) (w : World) → (task_step env now t w).0 ≢ raised
  unfolding task_step ◌>>=◌ gets catch record_now pure
  task_step-ne-raised now t w = ground arith

  -- No exception of a task ends the loop over the tasks.
  tasks_step-ne-raised :
      (now : ℕ) (ts : List Task) (w : World) → (tasks_step env now ts w).0 ≢ raised
  unfolding tasks_step ◌>>=◌ pure
  tasks_step-ne-raised now [] w = ground arith
  tasks_step-ne-raised now (t ∷ ts) w =
      ground
        (arith, task_step-ne-raised now t w, tasks_step-ne-raised now ts (task_step env now t w).1)

  scale_key-guard :
      (m : String) (n : ℕ) (k : ScaleKey) (w : World)
      → n < k.current
      → env.online_count w.trace m ≢ ok (some 0)
      → patches (scale_key env m n false (some k) w).1.trace ≡ patches w.trace
  unfolding scale_key scale_if_empty ◌>>=◌ ask pure
  scale_key-guard m n k w h o = ground arith

  -- An unforced scale-down of a tracked map sets no replicas unless the count of players on the
  -- map is confirmed to be 0: neither with players on it, nor with a count that could not be
  -- read, nor with an exception.
  run_scale_instance-guard :
      (m : String) (n : ℕ) (maps : List MapEntry) (k : ScaleKey) (w : World)
      → env.mock_status w.trace ≡ ok (some maps)
      → resolve_scale_key maps m ≡ some k
      → n < k.current
      → env.online_count (fetched_status ∷ w.trace) m ≢ ok (some 0)
      → patches (run_scale_instance env m n false w).1.trace ≡ patches w.trace
  unfolding run_scale_instance scale_tracked ◌>>=◌ ask pure
  run_scale_instance-guard m n maps k w a b h o =
      ground (arith, scale_key-guard m n k (record w { trace = fetched_status ∷ w.trace }) h o)
