-- ===== src/Schedule/Spacing.antt =====
-- The floor under recurring schedules of src/proactive_agent/handler_schedule.py: how far apart two
-- consecutive fires of a validated schedule are.
use proactive_agent.Prelude.{ℕ, suc, ◌+◌, ◌*◌, ◌≤◌, ◌≡◌, refl, sym, Bool, Option, none, some, arith}
use proactive_agent.Prelude.Int.{pos}
use proactive_agent.Schedule.{
  Python, Settings, schedule, Ended, returned, ◌>>=◌, shift, interval_next, second, day, hour,
  minute, floor, after_seconds, seconds, recurring, check_schedule, validate_time_trigger_settings,
  next_fire_at,
}
use proactive_agent.Schedule.Next.{
  IsFirstDaily, interval_next-IsOnGrid, interval_next-from_grid, daily_next-IsFirstDaily,
  daily_next-parsed,
}
use proactive_agent.Schedule.Valid.{checked_interval, schedule-checked}

grid-step : (start p w : ℕ) → start + (p + 1) * w ≡ start + p * w + w
grid-step start p w = grind arith

days_apart :
    (tod now : ℕ) (start_at : Option ℕ) {t u : ℕ}
    → IsFirstDaily tod now start_at t
    → IsFirstDaily tod t start_at u
    → t + day ≤ u
days_apart tod now none a b = ground (arith, a.at_tod, b.at_tod, b.after)
days_apart tod now (some start) a b = ground (arith, a.at_tod, b.at_tod, b.after)

some-returned :
    (r : Ended ℕ) {t : ℕ} → (r >>= λ t. returned (some t)) ≡ returned (some t) → r ≡ returned t
some-returned r h = ground arith

module _ (py : Python) where
  open py use {Raw, int}

  interval_apart :
      (raw : Raw) (n now : ℕ) (daily : Option Raw) (start_at : Option ℕ) {t u : ℕ}
      → int raw ≡ some (pos (suc n))
      → recurring py (some raw) daily now start_at ≡ returned (some t)
      → recurring py (some raw) daily t start_at ≡ returned (some u)
      → t + suc n * second ≤ u
  unfolding recurring after_seconds seconds shift
  interval_apart raw n now daily none i f g = ground arith
  interval_apart raw n now daily (some start) {t} {u} i f g =
      let first = interval_next-IsOnGrid py raw n now start i (some-returned _ f) in
      let g' : interval_next py raw t start ≡ returned u = some-returned _ g in
      let later =
        interval_next-from_grid py raw n first.step start {u = u} i (rw (sym first.on_grid) g') in
      omega (arith, first.on_grid, later, grid-step start first.step (suc n * second))

  daily_apart :
      (raw : Raw) (now : ℕ) (start_at : Option ℕ) {t u : ℕ}
      → recurring py none (some raw) now start_at ≡ returned (some t)
      → recurring py none (some raw) t start_at ≡ returned (some u)
      → t + day ≤ u
  unfolding recurring
  daily_apart raw now start_at f g =
      let ((h, m), parsed) = daily_next-parsed py raw now start_at (some-returned _ f) in
      days_apart (h * hour + m * minute) now start_at
        (daily_next-IsFirstDaily py raw h m now start_at parsed (some-returned _ f))
        (daily_next-IsFirstDaily py raw h m _ start_at parsed (some-returned _ g))

  module _ (s : Settings Raw) (ua : Bool) (now : ℕ) where
    recurring_apart :
        (interval daily : Option Raw) (start_at : Option ℕ) {t u : ℕ}
        → s.interval_seconds ≡ interval
        → check_schedule py s ua interval daily ≡ returned tt
        → recurring py interval daily now start_at ≡ returned (some t)
        → recurring py interval daily t start_at ≡ returned (some u)
        → t + floor ua * second ≤ u
    recurring_apart (some raw) daily start_at e c f g =
        let (n, i, long) = checked_interval py s ua now raw daily e c in
        let far = interval_apart raw n now daily start_at i f g in grind arith
    recurring_apart none (some raw) start_at e c f g =
        let far = daily_apart raw now start_at f g in ground arith
    recurring_apart none none start_at e c f g = unfold recurring in cc

    -- Two consecutive fires of a schedule that validation accepted are at least its floor apart: 60
    -- seconds, and 300 if the handler spawns an agent.
    pub next_fire_at-spaced :
        {t u : ℕ}
        → validate_time_trigger_settings py schedule s ua ≡ returned tt
        → next_fire_at py s now ≡ returned (some t)
        → next_fire_at py s t ≡ returned (some u)
        → t + floor ua * second ≤ u
    unfolding next_fire_at
    next_fire_at-spaced v f g =
        let (_, checked, (start, started)) = schedule-checked py s ua now v in
        recurring_apart s.interval_seconds s.daily_time start refl checked (rw started at f)
          (rw started at g)
