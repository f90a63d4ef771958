-- ===== src/Schedule/Time.antt =====
-- Instants and the texts in which the ledgers store them. An instant is a number of microseconds
-- since 1970-01-01T00:00Z; `_iso` prints whole seconds, so a stored stamp is a number of seconds.
use pelican_egg_dune_awakeni.Base.{
  ℕ, ◌+◌, ◌-◌, ◌*◌, ◌/◌, ◌%◌, Bool, true, false, ◌&&◌, List, [], ◌∷◌, Option, none, some, Text,
  split, ltb, ◌==◌, if◌then◌else◌,
}
use pelican_egg_dune_awakeni.Base.Int.{ℤ, pos}
use pelican_egg_dune_awakeni.Base.Numeral.{int}

abbrev pub second : ℕ
second = 1000000

abbrev pub minute : ℕ
minute = 60000000

abbrev pub hour : ℕ
hour = 3600000000

abbrev pub day : ℕ
day = 86400000000

-- `_iso`
unfoldable pub iso : ℕ → ℕ
iso t = t / second

-- `_parse_iso` of a text that `_iso` wrote, or of a missing one
unfoldable pub parse_iso : Option ℕ → Option ℕ
parse_iso none = none
parse_iso (some stamp) = some (stamp * second)

pub data Day : Type 0 where
  mon tue wed thu fri sat sun : Day

abbrev pub days_of_week : List Day
days_of_week = mon ∷ tue ∷ wed ∷ thu ∷ fri ∷ sat ∷ sun ∷ []

abbrev nth_day : ℕ → Day
nth_day n =
    if n == 0
    then mon
    else if n == 1
    then tue
    else if n == 2
    then wed
    else if n == 3
    then thu
    else if n == 4
    then fri
    else if n == 5
    then sat
    else sun

-- `DAYS[t.weekday()]`: 1970-01-01 was a Thursday
unfoldable pub weekday : ℕ → Day
weekday t = nth_day ((t / day + 3) % 7)

abbrev pub same_day : Day → Day → Bool
same_day mon mon = true
same_day tue tue = true
same_day wed wed = true
same_day thu thu = true
same_day fri fri = true
same_day sat sat = true
same_day sun sun = true
same_day _ _ = false

abbrev pub day_in : Day → List Day → Bool
day_in d [] = false
day_in d (x ∷ xs) = if same_day d x then true else day_in d xs

-- `now.replace(hour=h, minute=m, second=0, microsecond=0)`, which raises out of range
unfoldable pub at_clock : ℕ → ℤ → ℤ → Option ℕ
at_clock now (pos h) (pos m) =
    if ltb h 24 && ltb m 60 then some (now - now % day + (h * hour + m * minute)) else none
at_clock _ _ _ = none

-- `none` for a text that `int` refuses
abbrev pub at_numbers : ℕ → Option ℤ → Option ℤ → Option ℕ
at_numbers now (some h) (some m) = at_clock now h m
at_numbers _ _ _ = none

abbrev pub at_parts : ℕ → List Text → Option ℕ
at_parts now (h ∷ m ∷ []) = at_numbers now (int h) (int m)
at_parts now _ = none

unfoldable pub slot_today : ℕ → Text → Option ℕ
unfolding split int at_clock
slot_today now hhmm = at_parts now (split b':' hhmm)
