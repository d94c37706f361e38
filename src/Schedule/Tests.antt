-- ===== src/Schedule/Tests.antt =====
-- Runs of the scheduling code, and the theorems about it at concrete settings.
use proactive_agent.Prelude.{
  arith, ℕ, ◌+◌, ◌-◌, ◌*◌, ◌≤◌, ◌≡◌, refl, Bool, true, false, ◌&&◌, Option, none, some, List, [],
  ◌∷◌, leb, if◌then◌else◌, all,
}
use proactive_agent.Prelude.Int.{ℤ, pos}
use proactive_agent.Schedule.{
  schedule_error, Python, Settings, schedule, Stamp, returned, raised, daily_next, second, day,
  hour, minute, interval_next, first_fire_at, next_fire_at, validate_time_trigger_settings,
  validate_timer_delay,
}
use proactive_agent.Schedule.Next.{
  IsFirstStep, IsFirstDaily, interval_next-IsFirstStep, daily_next-IsFirstDaily,
}
use proactive_agent.Schedule.Valid.{Fires, first_fire_at-Fires}
use proactive_agent.Schedule.Spacing.{next_fire_at-spaced}

data Value : Type 0 where
  null : Value
  number : ℤ → Value
  word : List ℕ → Value

abbrev is_null : Value → Bool
is_null null = true
is_null _ = false

abbrev to_int : Value → Option ℤ
to_int (number z) = some z
to_int _ = none

abbrev text_of : Value → List ℕ
text_of (word w) = w
text_of _ = []

abbrev is_digit : ℕ → Bool
is_digit c = leb b'0' c && leb c b'9'

abbrev digits_from : ℕ → List ℕ → ℕ
digits_from n [] = n
digits_from n (c ∷ cs) = digits_from (n * 10 + (c - b'0')) cs

abbrev decimal : List ℕ → Option ℕ
decimal [] = none
decimal cs = if all is_digit cs then some (digits_from 0 cs) else none

-- A stand-in for ISO-8601: the digits of a number of seconds, in UTC.
abbrev stamp : List ℕ → Option Stamp
stamp cs = elim (decimal cs) [
  | none ↦ none
  | some n ↦ some (record { wall = n * second; offset = some (pos 0) })
]

int-null : (v : Value) → is_null v ≡ true → to_int v ≡ none
int-null null h = refl
int-null (number z) h = cc
int-null (word w) h = cc

abbrev python : Python
python = record {
  Raw = Value;
  is_none = is_null;
  int = to_int;
  str = text_of;
  isdigit = λ cs. all is_digit cs;
  int_text = decimal;
  fromisoformat = stamp;
  int-none = int-null;
}

abbrev empty : Settings Value
empty = record {
  delay_seconds = none;
  fire_at = none;
  interval_seconds = none;
  daily_time = none;
  start_at = none;
}

abbrev five_minutes : Settings Value
five_minutes = record empty {
  interval_seconds = some (number (pos 300));
  start_at = some (word (b'1' ∷ b'0' ∷ b'0' ∷ b'0' ∷ []));
}

abbrev half_past_nine : Value
half_past_nine = word (b'0' ∷ b'9' ∷ b':' ∷ b'3' ∷ b'0' ∷ [])

program : Unit {0}
unfolding first_fire_at next_fire_at validate_time_trigger_settings validate_timer_delay daily_next
program = tt

five_minutes-valid : validate_time_trigger_settings python schedule five_minutes true ≡ returned tt
unfolding program
five_minutes-valid = refl

-- one second is below both floors
too_fast :
    validate_time_trigger_settings python schedule
      (record empty { interval_seconds = some (number (pos 1)) })
      false
    ≡ raised schedule_error
unfolding program
too_fast = refl

-- before the start the schedule fires at the start, and then every five minutes
five_minutes_runs :
    (next_fire_at python five_minutes 0 ≡ returned (some (1000 * second)))
    × (next_fire_at python five_minutes (1000 * second) ≡ returned (some (1300 * second)))
    × (next_fire_at python five_minutes (1301 * second) ≡ returned (some (1600 * second)))
unfolding program
five_minutes_runs = (refl, refl, refl)

-- One microsecond before an instant of its grid, a schedule that started in the year 1 skips it.
skips_an_instant :
    interval_next python (number (pos 300)) (63000000000 * second - 1) 0
    ≡ returned (63000000300 * second)
unfolding program
skips_an_instant = refl

daily_runs :
    daily_next python half_past_nine (10 * hour) none ≡ returned (day + 9 * hour + 30 * minute)
unfolding program
daily_runs = refl

interval_next-IsFirstStep_example :
    IsFirstStep (1000 * second) (300 * second) (1301 * second) (1600 * second)
unfolding program
interval_next-IsFirstStep_example =
    interval_next-IsFirstStep python (number (pos 300)) 299 (1301 * second) (1000 * second) refl
      (omega arith) refl

daily_next-IsFirstDaily_example :
    IsFirstDaily (9 * hour + 30 * minute) (10 * hour) none (day + 9 * hour + 30 * minute)
unfolding program
daily_next-IsFirstDaily_example =
    daily_next-IsFirstDaily python half_past_nine 9 30 (10 * hour) none refl daily_runs

first_fire_at-Fires_example : Fires (first_fire_at python schedule five_minutes 0)
first_fire_at-Fires_example =
    first_fire_at-Fires python five_minutes true 0 schedule five_minutes-valid

next_fire_at-spaced_example : 1000 * second + 300 * second ≤ 1300 * second
next_fire_at-spaced_example =
    next_fire_at-spaced python five_minutes true 0 five_minutes-valid five_minutes_runs.0
      five_minutes_runs.1
