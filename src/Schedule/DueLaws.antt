-- ===== src/Schedule/DueLaws.antt =====
-- Exactly when a slot is due, and that a run that counts uses its slot up.
use pelican_egg_dune_awakeni.Base.{
  ℕ, ◌+◌, ◌*◌, ◌/◌, ◌≤◌, ◌<◌, ◌≡◌, ◌↔◌, ◌∙◌, refl, true, false, List, [], ◌∷◌, Option, none, some,
  Text, split, arith,
}
use pelican_egg_dune_awakeni.Base.Int.{ℤ, pos, negsuc}
use pelican_egg_dune_awakeni.Base.Numeral.{int}
use pelican_egg_dune_awakeni.Schedule.Due.{
  RestartConfig, restart_due, other_kind, allowed_days, at_least_zero, slot_due, TaskSchedule,
  daily, interval, schedule_due, at_least_one, daily_catchup_grace,
}
use pelican_egg_dune_awakeni.Schedule.Time.{
  second, minute, day, iso, parse_iso, weekday, day_in, at_clock, at_parts, at_numbers, slot_today,
}

-- Slots lie on whole seconds of the day of `now`, so that two instants of one day have one slot.
at_clock_whole :
    (now : ℕ) (h m : ℤ) {slot : ℕ} → at_clock now h m ≡ some slot → slot / second * second ≡ slot
unfolding at_clock
at_clock_whole now (pos h) (pos m) e = ground arith
at_clock_whole now _ _ e = ground arith

at_numbers_whole :
    (now : ℕ) (h m : Option ℤ) {slot : ℕ}
    → at_numbers now h m ≡ some slot
    → slot / second * second ≡ slot
at_numbers_whole now (some h) (some m) e = at_clock_whole now h m e
at_numbers_whole now _ _ e = cc

at_parts_whole :
    (now : ℕ) (parts : List Text) {slot : ℕ}
    → at_parts now parts ≡ some slot
    → slot / second * second ≡ slot
at_parts_whole now (h ∷ m ∷ []) e = at_numbers_whole now (int h) (int m) e
at_parts_whole now _ e = cc

at_clock-day : (a b : ℕ) (h m : ℤ) → a / day ≡ b / day → at_clock a h m ≡ at_clock b h m
unfolding at_clock
at_clock-day a b (pos h) (pos m) e = ground arith
at_clock-day a b (pos h) (negsuc m) e = refl
at_clock-day a b (negsuc h) m e = refl

at_numbers-day :
    (a b : ℕ) (h m : Option ℤ) → a / day ≡ b / day → at_numbers a h m ≡ at_numbers b h m
at_numbers-day a b (some h) (some m) e = at_clock-day a b h m e
at_numbers-day a b _ _ e = refl

at_parts-day :
    (a b : ℕ) (parts : List Text) → a / day ≡ b / day → at_parts a parts ≡ at_parts b parts
at_parts-day a b (h ∷ m ∷ []) e = at_numbers-day a b (int h) (int m) e
at_parts-day a b _ e = refl

pub slot_today-day : (a b : ℕ) (t : Text) → a / day ≡ b / day → slot_today a t ≡ slot_today b t
unfolding slot_today
slot_today-day a b t e = at_parts-day a b (split b':' t) e

pub slot_today_whole :
    (now : ℕ) (t : Text) {slot : ℕ} → slot_today now t ≡ some slot → slot / second * second ≡ slot
unfolding slot_today
slot_today_whole now t e = at_parts_whole now (split b':' t) e

-- no run is recorded at `slot` or later
abbrev pub NoRunSince : ℕ → Option ℕ → Type 0
NoRunSince slot none = Unit
NoRunSince slot (some stamp) = stamp * second < slot

-- `now` lies less than `grace` behind the slot, which has had no run
abbrev pub InWindow : ℕ → ℕ → Option ℕ → Option ℕ → Type 0
InWindow grace now last none = ⊥
InWindow grace now last (some slot) = (slot ≤ now) × (now < slot + grace) × NoRunSince slot last

slot_due_iff :
    (o : Option ℕ) (grace now : ℕ) (last : Option ℕ)
    → (slot_due o grace now (parse_iso last) ≡ true) ↔ InWindow grace now last o
unfolding parse_iso
slot_due_iff none grace now last = ground arith
slot_due_iff (some slot) grace now none = ground arith
slot_due_iff (some slot) grace now (some stamp) = ground arith

-- A restart is due exactly when it is enabled, today is an allowed day, and today's slot has
-- come, is less than the catch-up grace old, and has had no warning yet.
restart_due_iff :
    (r : RestartConfig) (now : ℕ) (last : Option ℕ)
    → (restart_due r now last ≡ true)
      ↔ (r.enabled ≡ true)
        × (day_in (weekday now) (allowed_days r.days) ≡ true)
        × InWindow (at_least_zero r.catch_up_grace_secs * second) now last (slot_today now r.time)
unfolding restart_due
restart_due_iff r now last = ground (
  arith,
  slot_due_iff (slot_today now r.time) (at_least_zero r.catch_up_grace_secs * second) now last,
)

slot_due_used :
    (o : Option ℕ) (grace now later at : ℕ) (last : Option ℕ)
    → ((slot : ℕ) → o ≡ some slot → slot / second * second ≡ slot)
    → slot_due o grace now (parse_iso last) ≡ true
    → now ≤ at
    → slot_due o grace later (parse_iso (some (iso at))) ≡ false
unfolding parse_iso iso
slot_due_used none grace now later at last w d h = refl
slot_due_used (some slot) grace now later at none w d h = let e = w slot refl in ground arith
slot_due_used (some slot) grace now later at (some l) w d h = let e = w slot refl in ground arith

-- Once a due restart has been recorded, at that instant or later, no restart is due at any
-- instant of the same day.
pub restart_due_once :
    (r : RestartConfig) (now later at : ℕ) (last : Option ℕ)
    → restart_due r now last ≡ true
    → now ≤ at
    → now / day ≡ later / day
    → restart_due r later (some (iso at)) ≡ false
unfolding restart_due
restart_due_once r now later at last d h same = ground (
  arith,
  slot_today-day now later r.time same,
  slot_due_used (slot_today now r.time) (at_least_zero r.catch_up_grace_secs * second) now later at
      last (λ slot e. slot_today_whole now r.time e),
)

-- the instants at which a run that counts keeps a task from running: for a daily one its day, for
-- one on an interval those before the interval has passed since the recorded second
abbrev pub Waits : TaskSchedule → ℕ → ℕ → Type 0
Waits (daily time days) at later = at / day ≡ later / day
Waits (interval every) at later = later < iso at * second + at_least_one every * minute
Waits other_kind at later = Unit

-- with the run by which the task is deduplicated as an argument
pub schedule_due_used :
    (s : TaskSchedule) (now later at : ℕ) (last : Option ℕ)
    → schedule_due s now last ≡ true
    → now ≤ at
    → now / day ≡ at / day
    → Waits s at later
    → schedule_due s later (some (iso at)) ≡ false
unfolding schedule_due
schedule_due_used (daily time days) now later at last d h same w = ground (
  arith,
  slot_today-day now later time (same ∙ w),
  slot_due_used (slot_today now time) daily_catchup_grace now later at last
      (λ slot e. slot_today_whole now time e),
)
schedule_due_used (interval every) now later at last d h same w = unfold parse_iso in ground arith
schedule_due_used other_kind now later at last d h same w = refl
