-- ===== src/Schedule/Valid.antt =====
-- What validation in src/proactive_agent/handler_schedule.py promises to the code that fires a
-- handler: no refusal later, and no schedule that fires more often than its floor.
use proactive_agent.Prelude.{
  ℕ, suc, ◌+◌, ◌-◌, ◌*◌, ◌≤◌, ◌≡◌, refl, inl, inr, Bool, true, Option, none, some, arith, ltb, leb,
  ◌==◌, Bool-cases, Option-cases,
}
use proactive_agent.Prelude.Int.{ℤ, pos, negsuc}
use proactive_agent.Schedule.{
  schedule_error, overflow_error, Python, Settings, TriggerType, timer, schedule, other_trigger,
  Ended, require, returned, raised, ◌>>=◌, >>=-eq-returned, shift, step_past, whole_steps,
  interval_next, daily_parts, daily_next, second, day, at_time, boundary, too_early, floor,
  after_seconds, seconds, parse_iso, validate_interval, schedule_start, recurring,
  validate_time_trigger_settings, first_fire_at, check_schedule, check_timer, timer_fire, present,
  or_raise,
}

-- The code fires at an instant, or that instant is outside the range of `datetime`.
pub data Fires : Ended ℕ → Type 0 where
  at : {r : Ended ℕ} (t : ℕ) → r ≡ returned t → Fires r
  out_of_range : {r : Ended ℕ} → r ≡ raised overflow_error → Fires r

shift-Fires : (t : ℕ) (z : ℤ) → Fires (shift t z)
unfolding shift
shift-Fires t (pos n) = elim (Bool-cases (leb (t + n) (3652059 * 86400000000 - 1))) [
  | inl fits ↦ at (t + n) (ground arith)
  | inr over ↦ out_of_range (ground arith)
]
shift-Fires t (negsuc n) = elim (Bool-cases (leb (suc n) t)) [
  | inl fits ↦ at (t - suc n) (ground arith)
  | inr over ↦ out_of_range (ground arith)
]

step_past-Fires : (k now start : ℕ) → Fires (step_past (pos (suc k)) now start)
unfolding step_past
step_past-Fires k now start =
    shift-Fires start (pos ((whole_steps (now - start) (suc k) + 1) * (suc k * second)))

bind-Fires :
    (r : Ended ℕ) → Fires r → Fires ((r >>= λ t. returned (some t)) >>= or_raise schedule_error)
bind-Fires (returned t) f = at t refl
bind-Fires (raised e) (at t h) = absurd (ground arith)
bind-Fires (raised e) (out_of_range h) = out_of_range h

module _ (py : Python) where
  open py use {Raw, is_none, int, int-none}

  validate_interval-floor :
      (s : Settings Raw) (ua : Bool) (raw : Raw) {z : ℤ}
      → s.interval_seconds ≡ some raw
      → int raw ≡ some z
      → validate_interval py s ua ≡ returned tt
      → (n : ℕ) × (z ≡ pos n) × (floor ua ≤ n)
  unfolding validate_interval
  validate_interval-floor s ua raw {z = pos n} e i h = (n, refl, ground (arith, int-none raw))
  validate_interval-floor s ua raw {z = negsuc n} e i h = absurd (ground (arith, int-none raw))

  after_seconds-Fires :
      (raw : Raw) (now : ℕ) {z : ℤ} → int raw ≡ some z → Fires (after_seconds py raw now)
  unfolding after_seconds
  after_seconds-Fires raw now {z} i = rw i (shift-Fires now (seconds z))

  interval_next-Fires :
      (raw : Raw) (now start n : ℕ)
      → int raw ≡ some (pos (suc n))
      → Fires (interval_next py raw now start)
  unfolding interval_next
  interval_next-Fires raw now start n i = elim (Bool-cases (ltb now start)) [
    | inl ahead ↦ at start (ground arith)
    | inr begun ↦ rw (i, begun) (step_past-Fires n now start)
  ]

  daily_next-Fires :
      (raw : Raw) (now : ℕ) (start_at : Option ℕ) {hm : ℕ × ℕ}
      → daily_parts py raw ≡ returned hm
      → Fires (daily_next py raw now start_at)
  unfolding daily_next
  daily_next-Fires raw now start_at {hm} e =
      let target = at_time (boundary now start_at) hm.0 hm.1 in
      elim (Bool-cases (too_early target now start_at)) [
        | inl early ↦ rw (e, early) (shift-Fires target (pos day))
        | inr due ↦ at target (rw (e, due) refl)
      ]

  module _ (s : Settings Raw) (ua : Bool) (now : ℕ) where
    -- An interval that was checked is a number of seconds, and at least the floor.
    pub checked_interval :
        (raw : Raw) (daily : Option Raw)
        → s.interval_seconds ≡ some raw
        → check_schedule py s ua (some raw) daily ≡ returned tt
        → (n : ℕ) × (int raw ≡ some (pos (suc n))) × (floor ua ≤ suc n)
    unfolding check_schedule
    checked_interval raw daily e c = elim (Option-cases (int raw)) [
      | inl bad ↦ absurd (ground arith)
      | inr (z, good) ↦
          let (n, is_pos, long) = validate_interval-floor s ua raw e good (ground arith) in
          (n - 1, ground arith, ground arith)
    ]

    pub schedule-checked :
        validate_time_trigger_settings py schedule s ua ≡ returned tt
        → ((present s.interval_seconds + present s.daily_time == 1) ≡ true)
          × (check_schedule py s ua s.interval_seconds s.daily_time ≡ returned tt)
          × ((start : Option ℕ) × (schedule_start py s ≡ returned start))
    unfolding validate_time_trigger_settings
    schedule-checked v =
        let (_, one, rest) =
          >>=-eq-returned
            (require (present s.interval_seconds + present s.daily_time == 1) schedule_error) _ v in
        let (_, checked, rest') =
          >>=-eq-returned (check_schedule py s ua s.interval_seconds s.daily_time) _ rest in
        let (start, started, _) = >>=-eq-returned (schedule_start py s) _ rest' in
        (ground arith, ground arith, (start, started))

    recurring-Fires :
        (interval daily : Option Raw) (start_at : Option ℕ)
        → s.interval_seconds ≡ interval
        → (present interval + present daily == 1) ≡ true
        → check_schedule py s ua interval daily ≡ returned tt
        → Fires (recurring py interval daily now start_at >>= or_raise schedule_error)
    unfolding recurring check_schedule
    recurring-Fires none none start_at e one c = absurd (ground arith)
    recurring-Fires none (some raw) start_at e one c =
        let (hm, parsed, _) = >>=-eq-returned (daily_parts py raw) _ c in
        bind-Fires _ (daily_next-Fires raw now start_at parsed)
    recurring-Fires (some raw) daily none e one c =
        let (n, i, _) = checked_interval raw daily e c in
        bind-Fires _ (after_seconds-Fires raw now i)
    recurring-Fires (some raw) daily (some start) e one c =
        let (n, i, _) = checked_interval raw daily e c in
        bind-Fires _ (interval_next-Fires raw now start n i)

    timer_fire-Fires :
        (delay fire_at : Option Raw)
        → (present delay + present fire_at == 1) ≡ true
        → check_timer py delay fire_at ≡ returned tt
        → Fires (timer_fire py delay fire_at now)
    unfolding timer_fire check_timer
    timer_fire-Fires none none one c = absurd (ground arith)
    timer_fire-Fires none (some raw) one c =
        let (t, parsed, _) = >>=-eq-returned (parse_iso py raw) _ c in at t parsed
    timer_fire-Fires (some raw) fire_at one c = elim (Option-cases (int raw)) [
      | inl bad ↦ absurd (ground arith)
      | inr (z, good) ↦ after_seconds-Fires raw now good
    ]

    -- Settings that validation accepted never make `first_fire_at` raise a ScheduleError or
    -- ValueError, nor divide by zero: it returns an instant, or the instant is out of range.
    pub first_fire_at-Fires :
        (trigger : TriggerType)
        → validate_time_trigger_settings py trigger s ua ≡ returned tt
        → Fires (first_fire_at py trigger s now)
    unfolding first_fire_at validate_time_trigger_settings
    first_fire_at-Fires timer v =
        timer_fire-Fires s.delay_seconds s.fire_at (ground arith) (ground arith)
    first_fire_at-Fires schedule v =
        let (one, checked, (start, started)) = schedule-checked v in
        rw started (recurring-Fires s.interval_seconds s.daily_time start refl one checked)
    first_fire_at-Fires other_trigger v = cc
