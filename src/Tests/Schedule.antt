-- ===== src/Tests/Schedule.antt =====
-- A scheduler with a slot at 08:00, on 1970-01-04, which was a Sunday.
use pelican_egg_dune_awakeni.Base.{
  ℕ, ◌+◌, ◌*◌, ◌≤◌, ◌≡◌, ◌≢◌, refl, true, false, List, [], ◌∷◌, none, some, codes, strip, is_some,
  if◌then◌else◌, arith,
}
use pelican_egg_dune_awakeni.Base.Int.{pos}
use pelican_egg_dune_awakeni.Schedule.Action.{
  ok, raised, killed, Env, World, ran, shutdown_restart, exited, ◌>>=◌, pure, gets, ask, catch,
  record_now,
}
use pelican_egg_dune_awakeni.Schedule.Announce.{arm_slot-announced}
use pelican_egg_dune_awakeni.Schedule.Due.{
  RestartConfig, TaskSchedule, daily, restart_due, schedule_due, task_due,
}
use pelican_egg_dune_awakeni.Schedule.DueLaws.{restart_due_once}
use pelican_egg_dune_awakeni.Schedule.Firing.{fires, count, pending, IsDisarmed}
use pelican_egg_dune_awakeni.Schedule.Ledger.{
  task, stamp, pending_restart_at, last_run, last_settled_run, same_key, record_run, skipped_status,
  checking,
}
use pelican_egg_dune_awakeni.Schedule.Quiet.{asked}
use pelican_egg_dune_awakeni.Schedule.Restart.{
  armings, run_tick-asked, run_tick-IsDisarmed, scan_loop-asked,
}
use pelican_egg_dune_awakeni.Schedule.Runners.{
  Task, broadcast_task, publish, run_task, run_broadcast,
}
use pelican_egg_dune_awakeni.Schedule.Tasks.{Logged, task_step-Logged, task_due_once}
use pelican_egg_dune_awakeni.Schedule.Tick.{
  Config, run_tick, scan_loop, warn_step, arm_slot, task_step, dedupe, instant, run_and_record,
}
use pelican_egg_dune_awakeni.Schedule.Time.{second, minute, hour, day, iso, weekday, slot_today}

abbrev at_0800 : ℕ
at_0800 = 3 * day + 8 * hour

-- ten seconds and a half past the slot
abbrev now : ℕ
now = at_0800 + 10500000

abbrev nightly : RestartConfig
nightly = record {
  enabled = true;
  time = codes "08:00";
  days = [];
  warn_lead_secs = pos 300;
  warn_freq_secs = pos 60;
  catch_up_grace_secs = pos 3600;
}

abbrev config : Config
config = record {
  restart = nightly;
  backup = record { enabled = false; every_hours = pos 24 };
  tasks = [];
}

-- the panel's call never returns: it takes this container down
abbrev env : Env
env = record {
  clock = λ t. now;
  publish = λ t c. ok (exited (pos 0) (codes "sent") []);
  panel = λ t. killed;
  mock_status = λ t.
      ok (some (record { map_name = "SH_Arrakeen"; key = codes "ns/arrakeen"; desired = 2 } ∷ []));
  online_count = λ t m. ok none;
  patch_scale = λ t ns name n. ok (some 200);
  configured = true;
  acme_backend = false;
  certificate_file = λ t. false;
  renewal_idle = λ t. true;
}

abbrev fresh : World
fresh = record { ledger = record { runs = []; state = λ k. none }; trace = [] }

-- armed for a second before `now`
abbrev armed : World
armed = record {
  ledger = record {
    runs = [];
    state = λ k. if same_key pending_restart_at k then some (stamp (iso now)) else none;
  };
  trace = [];
}

due_now : restart_due nightly now none ≡ true
unfolding restart_due weekday slot_today
due_now = refl

not_due_later : restart_due nightly (at_0800 + 3600 * second) none ≡ false
unfolding restart_due weekday slot_today
not_due_later = refl

armed-pending : pending armed ≡ some (at_0800 + 10 * second)
unfolding instant iso
armed-pending = refl

restart_due_once_example : restart_due nightly (now + minute) (some (iso now)) ≡ false
restart_due_once_example =
    restart_due_once nightly now (now + minute) now none due_now (omega arith) refl

abbrev morning : TaskSchedule
morning = daily (codes "08:00") []

morning_due : schedule_due morning now none ≡ true
unfolding schedule_due weekday slot_today
morning_due = refl

task_due_once_example :
    task_due true morning (now + minute) (
      dedupe env morning
        (task "hello")
        (record_run (task "hello") skipped_status checking (iso now) fresh.ledger))
    ≡ false
unfolding task_due last_settled_run
task_due_once_example =
    task_due_once env true morning "hello" now (now + minute) now skipped_status checking
      fresh.ledger morning_due (omega arith) refl refl

run_tick-asked_example :
    asked (run_tick env config now armed).1 ≡ asked armed + count (fires env (pending armed) now)
run_tick-asked_example = run_tick-asked env config now armed

run_tick-IsDisarmed_example : IsDisarmed (run_tick env config now armed).1
run_tick-IsDisarmed_example = run_tick-IsDisarmed env config now armed armed-pending (omega arith)

abbrev ticks : List (Config × ℕ)
ticks = (config, now) ∷ (config, now + minute) ∷ (config, now + 2 * minute) ∷ []

scan_loop-asked_example :
    asked (scan_loop env ticks armed)
    ≤ 0 + count (is_some (pending armed)) + armings env ticks armed
scan_loop-asked_example = scan_loop-asked env ticks armed

arm_slot-announced_example :
    (((do slot ← arm_slot env none now nightly; warn_step env slot.0 now) fresh).1.ledger.state
        pending_restart_at
      ≡ some (stamp (iso (now + 300 * second))))
    × (((do slot ← arm_slot env none now nightly; warn_step env slot.0 now) fresh).1.trace
        ≡ ran (shutdown_restart 300 60) ∷ [])
unfolding last_run
arm_slot-announced_example = arm_slot-announced env now nightly fresh due_now refl

-- its runner raises
abbrev broken : Env
broken = record env { publish = λ t c. raised }

abbrev greeting : Task
greeting = record {
  id = "hello";
  enabled = true;
  schedule = morning;
  kind = broadcast_task (codes "Hello") (codes "Good morning") (pos 30);
}

greeting-due : task_due true morning now (dedupe broken morning (task "hello") fresh.ledger) ≡ true
unfolding task_due weekday slot_today last_settled_run
greeting-due = refl

greeting-alive : (task_step broken now greeting fresh).0 ≢ killed
unfolding task_step run_and_record run_task run_broadcast publish task_due weekday slot_today
    last_settled_run ◌>>=◌ gets ask pure catch record_now strip
greeting-alive = λ e. cc

task_step-Logged_example :
    Logged (task "hello") [] (task_step broken now greeting fresh).1.ledger.runs
task_step-Logged_example = task_step-Logged broken now greeting fresh greeting-due greeting-alive
