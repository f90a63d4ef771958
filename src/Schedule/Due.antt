-- ===== src/Schedule/Due.antt =====
-- When the scheduler acts: `restart_due`, `backup_due` and `task_due`, over the settings in the
-- shape that `validate_config` gives them.
use pelican_egg_dune_awakeni.Base.{
  ℕ, ◌+◌, ◌*◌, Bool, true, false, not, List, Option, none, some, Text, leb, ltb, max, is_empty,
  if◌then◌else◌,
}
use pelican_egg_dune_awakeni.Base.Int.{ℤ, pos_part}
use pelican_egg_dune_awakeni.Schedule.Time.{
  second, minute, hour, Day, days_of_week, weekday, day_in, slot_today, parse_iso,
}

pub record RestartConfig : Type 0 where
  pub enabled : Bool
  pub time : Text
  pub days : List Day
  pub warn_lead_secs : ℤ
  pub warn_freq_secs : ℤ
  pub catch_up_grace_secs : ℤ

pub record BackupConfig : Type 0 where
  pub enabled : Bool
  pub every_hours : ℤ

-- `x or DAYS`
abbrev pub allowed_days : List Day → List Day
allowed_days days = if is_empty days then days_of_week else days

-- `max(int(n), 0)` and `max(int(n), 1)`
abbrev pub at_least_zero : ℤ → ℕ
at_least_zero = pos_part

abbrev pub at_least_one : ℤ → ℕ
at_least_one n = max (pos_part n) 1

-- `lw is not None and lw >= slot`
abbrev pub not_before : Option ℕ → ℕ → Bool
not_before none slot = false
not_before (some t) slot = leb slot t

-- what `restart_due` and the daily branch of `task_due` share: `slot` has passed less than `grace`
-- ago, and no run `last` lies in it
abbrev pub slot_due : Option ℕ → ℕ → ℕ → Option ℕ → Bool
slot_due none grace now last = false
slot_due (some slot) grace now last =
    if ltb now slot
    then false
    else if leb (slot + grace) now
    then false
    else not (not_before last slot)

unfoldable pub restart_due : RestartConfig → ℕ → Option ℕ → Bool
unfolding parse_iso
restart_due r now last_warn =
    if not r.enabled
    then false
    else if not (day_in (weekday now) (allowed_days r.days))
    then false
    else slot_due (slot_today now r.time) (at_least_zero r.catch_up_grace_secs * second) now
        (parse_iso last_warn)

abbrev interval_due : ℕ → ℕ → Option ℕ → Bool
interval_due every now none = true
interval_due every now (some t) = leb (t + every) now

unfoldable pub backup_due : BackupConfig → ℕ → Option ℕ → Bool
unfolding parse_iso
backup_due b now last_backup =
    if not b.enabled
    then false
    else interval_due (at_least_one b.every_hours * hour) now (parse_iso last_backup)

pub data TaskSchedule : Type 0 where
  daily : Text → List Day → TaskSchedule
  interval : ℤ → TaskSchedule
  other_kind : TaskSchedule

abbrev pub daily_catchup_grace : ℕ
daily_catchup_grace = 3600000000

unfoldable pub schedule_due : TaskSchedule → ℕ → Option ℕ → Bool
unfolding parse_iso
schedule_due (interval every_minutes) now last_run =
    interval_due (at_least_one every_minutes * minute) now (parse_iso last_run)
schedule_due (daily time days) now last_run =
    if not (day_in (weekday now) (allowed_days days))
    then false
    else slot_due (slot_today now time) daily_catchup_grace now (parse_iso last_run)
schedule_due other_kind now last_run = false

unfoldable pub task_due : Bool → TaskSchedule → ℕ → Option ℕ → Bool
unfolding schedule_due
task_due enabled schedule now last_run =
    if not enabled then false else schedule_due schedule now last_run
