-- ===== src/Schedule.antt =====
-- src/proactive_agent/handler_schedule.py: when a handler's timer or schedule fires.
-- An instant is the number of microseconds since `datetime.min`, in UTC. What the module takes from
-- Python's own parsers (`int`, `str`, `str.isdigit`, `datetime.fromisoformat`) is the record `Python`.
pub mod Elapsed
pub mod Next
pub mod Valid
pub mod Spacing
mod Tests
use proactive_agent.Prelude.{
  ℕ, zero, suc, ◌+◌, ◌-◌, ◌*◌, ◌/◌, ◌%◌, ◌^◌, ◌≡◌, refl, Bool, true, false, ◌&&◌, ◌||◌, not, Option,
  none, some, List, [], ◌∷◌, ◌++◌, ltb, leb, ◌==◌, if◌then◌else◌, length, max,
}
use proactive_agent.Prelude.Int.{ℤ, pos, negsuc, pos_part, sub_ℕ, leb_ℤ}

pub data Error : Type 0 where
  schedule_error value_error overflow_error zero_division : Error

-- How a call ends.
pub data Ended {ℓ} (A : Type ℓ) : Type ℓ where
  raised : Error → Ended A
  returned : A → Ended A

infixl 5 ◌>>=◌
abbrev pub ◌>>=◌ {ℓ κ} : {X : Type ℓ} {Y : Type κ} → Ended X → (X → Ended Y) → Ended Y
raised error >>= next = raised error
returned x >>= next = next x

-- `if not …: raise …`
abbrev pub require : Bool → Error → Ended (Unit {0})
require false error = raised error
require true error = returned tt

-- a statement whose value is not used
infixl 5 ◌>>◌
abbrev pub ◌>>◌ {ℓ} : {Y : Type ℓ} → Ended (Unit {0}) → Ended Y → Ended Y
check >> rest = check >>= λ done. rest

-- Inversion of a successful bind.
pub >>=-eq-returned {ℓ κ} :
    {A : Type ℓ} {B : Type κ} (m : Ended A) (f : A → Ended B) {b : B}
    → (m >>= f) ≡ returned b
    → (a : A) × (m ≡ returned a) × (f a ≡ returned b)
>>=-eq-returned (returned a) f h = (a, refl, h)
>>=-eq-returned (raised e) f h = cc

-- A parsed ISO-8601 timestamp: the wall clock and the UTC offset, both in microseconds.
pub record Stamp : Type 0 where
  pub wall : ℕ
  pub offset : Option ℤ

-- A settings value is opaque; `none` is Python's TypeError or ValueError.
pub record Python : Type 1 where
  pub Raw : Type 0
  pub is_none : Raw → Bool
  pub int : Raw → Option ℤ
  pub str : Raw → List ℕ
  pub isdigit : List ℕ → Bool
  pub int_text : List ℕ → Option ℕ
  pub fromisoformat : List ℕ → Option Stamp
  -- `int(None)` raises TypeError.
  pub int-none : (r : Raw) → is_none r ≡ true → int r ≡ none

abbrev pub second : ℕ
second = 1000000

abbrev pub minute : ℕ
minute = 60000000

abbrev pub hour : ℕ
hour = 3600000000

abbrev pub day : ℕ
day = 86400000000

-- `datetime.max`, the last microsecond of the year 9999
abbrev pub max_instant : ℕ
max_instant = 3652059 * 86400000000 - 1

abbrev pub min_interval_seconds : ℕ
min_interval_seconds = 60

abbrev pub min_interval_with_agent_seconds : ℕ
min_interval_with_agent_seconds = 300

abbrev pub min_timer_delay_seconds : ℕ
min_timer_delay_seconds = 60

abbrev pub max_timer_delay_seconds : ℕ
max_timer_delay_seconds = 30 * 86400

pub data TriggerType : Type 0 where
  timer schedule other_trigger : TriggerType

-- `datetime + timedelta`, with its OverflowError
unfoldable pub shift : ℕ → ℤ → Ended ℕ
shift t (pos n) = if leb (t + n) max_instant then returned (t + n) else raised overflow_error
shift t (negsuc n) = if leb (suc n) t then returned (t - suc n) else raised overflow_error

-- `timedelta(seconds=n)`, in microseconds
unfoldable pub seconds : ℤ → ℤ
seconds (pos n) = pos (n * second)
seconds (negsuc n) = negsuc (suc n * second - 1)

-- `dt.astimezone(UTC)`, with a missing offset read as UTC
unfoldable pub astimezone : Stamp → Ended ℕ
unfolding shift
astimezone s = elim s.offset [
  | none ↦ returned s.wall
  | some (pos n) ↦ shift s.wall (sub_ℕ 0 n)
  | some (negsuc n) ↦ shift s.wall (pos (suc n))
]

abbrev pub or_raise : {A : Type 0} → Error → Option A → Ended A
or_raise e none = raised e
or_raise e (some a) = returned a

-- `value.split(":")`, with the part read so far
unfoldable pub split_on : ℕ → List ℕ → List ℕ → List (List ℕ)
split_on sep part [] = part ∷ []
split_on sep part (c ∷ cs) =
    let here = part ∷ split_on sep [] cs in
    let further = split_on sep (part ++ c ∷ []) cs in if c == sep then here else further

-- The keys that a settings object may hold; `none` is an absent key.
pub record Settings (Raw : Type 0) : Type 0 where
  pub delay_seconds : Option Raw
  pub fire_at : Option Raw
  pub interval_seconds : Option Raw
  pub daily_time : Option Raw
  pub start_at : Option Raw

abbrev pub present : {A : Type 0} → Option A → ℕ
present none = 0
present (some a) = 1

-- `target <= now or (start_at is not None and target < start_at)`
abbrev pub too_early : ℕ → ℕ → Option ℕ → Bool
too_early target now none = leb target now
too_early target now (some start_at) = leb target now || ltb target start_at

abbrev pub boundary : ℕ → Option ℕ → ℕ
boundary now none = now
boundary now (some start_at) = max now start_at

-- `boundary.replace(hour=…, minute=…, second=0, microsecond=0)`
abbrev pub at_time : ℕ → ℕ → ℕ → ℕ
at_time t h m = t - t % day + h * hour + m * minute

-- the binary digits of a number below `2 ^ fuel`
unfoldable pub digits : ℕ → ℕ → ℕ
digits zero m = 0
digits (suc fuel) m = let rest = digits fuel (m / 2) in if m == 0 then 0 else suc rest

-- How many doubles there are to a second, at this many microseconds; two instants are less than
-- 2 ^ 39 seconds apart. Below one second the doubles stand closer, which no quotient by whole seconds
-- depends on.
unfoldable pub units : ℕ → ℕ
unfolding digits
units elapsed = 2 ^ (53 - digits 40 (elapsed / second))

-- a quotient rounded to the nearest whole number, and to an even one halfway
unfoldable pub round_half_even : ℕ → ℕ → ℕ
round_half_even a b =
    let q = a / b in
    let twice = 2 * (a % b) in if ltb twice b then q else if ltb b twice then q + 1 else q + q % 2

-- `timedelta.total_seconds()`: the double nearest to the quotient, as a number of units
unfoldable pub total_seconds : ℕ → ℕ
unfolding units round_half_even
total_seconds elapsed = round_half_even (elapsed * units elapsed) second

-- `elapsed // interval`, for a positive interval
unfoldable pub whole_steps : ℕ → ℕ → ℕ
unfolding units total_seconds
whole_steps elapsed interval = total_seconds elapsed / (units elapsed * interval)

-- `elapsed // interval + 1` steps of the interval, added to the start. Python's floor division by a
-- negative interval rounds away from zero.
unfoldable pub step_past : ℤ → ℕ → ℕ → Ended ℕ
unfolding shift units total_seconds whole_steps
step_past (pos zero) now start_at = raised zero_division
step_past (pos (suc k)) now start_at =
    let width = suc k * second in
    shift start_at (pos ((whole_steps (now - start_at) (suc k) + 1) * width))
step_past (negsuc k) now start_at =
    let width = suc k * second in
    let interval = units (now - start_at) * suc k in
    let behind = (total_seconds (now - start_at) + (interval - 1)) / interval in
    shift start_at (sub_ℕ (behind * width) width)

-- `dt.tzinfo is not None and dt.utcoffset() == timedelta(0)`
abbrev pub zero_offset : Option ℤ → Bool
zero_offset none = false
zero_offset (some (pos zero)) = true
zero_offset (some (pos (suc n))) = false
zero_offset (some (negsuc n)) = false

abbrev pub floor : Bool → ℕ
floor uses_agent = if uses_agent then min_interval_with_agent_seconds else min_interval_seconds

module _ (py : Python) where
  open py use {Raw, is_none, int, str, isdigit, int_text, fromisoformat}

  abbrev to_int : Raw → Error → Ended ℤ
  to_int raw e = or_raise e (int raw)

  unfoldable pub parse_iso : Raw → Ended ℕ
  unfolding astimezone
  parse_iso value = do dt ← or_raise schedule_error (fromisoformat (str value)); astimezone dt

  unfoldable pub parse_start_at : Raw → Ended ℕ
  parse_start_at value = do
    dt ← or_raise schedule_error (fromisoformat (str value))
    require (zero_offset dt.offset) schedule_error
    returned dt.wall

  unfoldable pub validate_interval : Settings Raw → Bool → Ended (Unit {0})
  validate_interval settings uses_agent = elim settings.interval_seconds [
    | none ↦ returned tt
    | some raw ↦ if is_none raw then returned tt else (do
      interval ← to_int raw value_error
      require (leb_ℤ (pos (floor uses_agent)) interval) schedule_error)
  ]

  unfoldable pub validate_timer_delay : Raw → Ended ℕ
  validate_timer_delay raw = do
    delay ← to_int raw value_error
    require (leb_ℤ (pos min_timer_delay_seconds) delay) schedule_error
    require (leb_ℤ delay (pos max_timer_delay_seconds)) schedule_error
    returned (pos_part delay)

  bad_part : List ℕ → Bool
  bad_part part = not (length part == 2) || not (isdigit part)

  -- the checks of `_daily_parts` on the parts around the colons
  unfoldable pub hour_minute : List (List ℕ) → Ended (ℕ × ℕ)
  unfolding bad_part
  hour_minute (h ∷ m ∷ []) = do
    require (not (bad_part h || bad_part m)) schedule_error
    hours ← or_raise value_error (int_text h)
    minutes ← or_raise value_error (int_text m)
    require (leb hours 23 && leb minutes 59) schedule_error
    returned (hours, minutes)
  hour_minute parts = raised schedule_error

  unfoldable pub daily_parts : Raw → Ended (ℕ × ℕ)
  unfolding hour_minute split_on
  daily_parts daily_time = hour_minute (split_on b':' [] (str daily_time))

  unfoldable pub daily_next : Raw → ℕ → Option ℕ → Ended ℕ
  unfolding daily_parts shift
  daily_next daily_time now start_at = do
    (h, m) ← daily_parts daily_time
    let target = at_time (boundary now start_at) h m
    if too_early target now start_at then shift target (pos day) else returned target

  unfoldable pub interval_next : Raw → ℕ → ℕ → Ended ℕ
  unfolding step_past
  interval_next interval_seconds now start_at = do
    interval ← to_int interval_seconds value_error
    if ltb now start_at then returned start_at else step_past interval now start_at

  unfoldable pub schedule_start : Settings Raw → Ended (Option ℕ)
  unfolding parse_start_at
  schedule_start settings = elim settings.start_at [
    | none ↦ returned none
    | some raw ↦ (do start ← parse_start_at raw; returned (some start))
  ]

  -- the two kinds of timer, of which validation has left one
  check_timer : Option Raw → Option Raw → Ended (Unit {0})
  unfolding parse_iso
  check_timer (some raw) fire_at = do _ ← to_int raw schedule_error; returned tt
  check_timer none none = returned tt
  check_timer none (some raw) = do _ ← parse_iso raw; returned tt

  pub check_schedule : Settings Raw → Bool → Option Raw → Option Raw → Ended (Unit {0})
  unfolding validate_interval daily_parts
  check_schedule settings uses_agent (some raw) daily_time = do
    _ ← to_int raw schedule_error
    validate_interval settings uses_agent
  check_schedule settings uses_agent none none = returned tt
  check_schedule settings uses_agent none (some raw) = do _ ← daily_parts raw; returned tt

  unfoldable pub validate_time_trigger_settings :
      TriggerType → Settings Raw → Bool → Ended (Unit {0})
  unfolding check_timer check_schedule schedule_start
  validate_time_trigger_settings timer settings uses_agent = do
    require (present settings.start_at == 0) schedule_error
    require (present settings.delay_seconds + present settings.fire_at == 1) schedule_error
    check_timer settings.delay_seconds settings.fire_at
  validate_time_trigger_settings schedule settings uses_agent = do
    require (present settings.interval_seconds + present settings.daily_time == 1) schedule_error
    check_schedule settings uses_agent settings.interval_seconds settings.daily_time
    _ ← schedule_start settings
    returned tt
  validate_time_trigger_settings other_trigger settings uses_agent = raised schedule_error

  -- `now + timedelta(seconds=int(raw))`
  unfoldable pub after_seconds : Raw → ℕ → Ended ℕ
  unfolding shift seconds
  after_seconds raw now = do n ← to_int raw value_error; shift now (seconds n)

  timer_fire : Option Raw → Option Raw → ℕ → Ended ℕ
  unfolding after_seconds parse_iso
  timer_fire (some raw) fire_at now = after_seconds raw now
  timer_fire none (some raw) now = parse_iso raw
  timer_fire none none now = raised schedule_error

  -- the two kinds of schedule; `none` if there is neither
  pub recurring : Option Raw → Option Raw → ℕ → Option ℕ → Ended (Option ℕ)
  unfolding interval_next after_seconds daily_next
  recurring (some raw) daily_time now (some start_at) = do
    t ← interval_next raw now start_at
    returned (some t)
  recurring (some raw) daily_time now none = do t ← after_seconds raw now; returned (some t)
  recurring none (some raw) now start_at = do t ← daily_next raw now start_at; returned (some t)
  recurring none none now start_at = returned none

  unfoldable pub first_fire_at : TriggerType → Settings Raw → ℕ → Ended ℕ
  unfolding timer_fire schedule_start recurring
  first_fire_at timer settings now = timer_fire settings.delay_seconds settings.fire_at now
  first_fire_at schedule settings now = do
    start_at ← schedule_start settings
    fire ← recurring settings.interval_seconds settings.daily_time now start_at
    or_raise schedule_error fire
  first_fire_at other_trigger settings now = raised schedule_error

  unfoldable pub next_fire_at : Settings Raw → ℕ → Ended (Option ℕ)
  unfolding schedule_start recurring
  next_fire_at settings now = do
    start_at ← schedule_start settings
    recurring settings.interval_seconds settings.daily_time now start_at
