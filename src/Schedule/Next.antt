-- ===== src/Schedule/Next.antt =====
-- When a recurring schedule fires next: `_interval_next` and `_daily_next` of
-- src/proactive_agent/handler_schedule.py against the set of instants they choose from.
use native.Mathlib.Nat.{div-lt_iff_lt-mul, lt-div-mul-add, mul-div_cancel}
use proactive_agent.Prelude.{
  List, [], ◌∷◌, false, ℕ, suc, ◌+◌, ◌-◌, ◌*◌, ◌/◌, ◌%◌, ◌^◌, ap, ◌∙◌, ◌≤◌, ◌<◌, ◌≡◌, refl, inl,
  inr, Option, none, some, arith, ltb, if◌then◌else◌, Bool-cases,
}
use proactive_agent.Prelude.Int.{pos}
use proactive_agent.Schedule.Elapsed.{whole_steps-exact, whole_steps-below}
use proactive_agent.Schedule.{
  whole_steps, hour_minute, split_on, Python, Ended, >>=-eq-returned, returned, shift,
  interval_next, daily_parts, daily_next, second, day, hour, minute, at_time, boundary, too_early,
}

-- `t` is the first instant after `now` on the grid that starts at `start` with the given width.
pub record IsFirstStep (start width now t : ℕ) : Type 0 where
  pub step : ℕ
  pub on_grid : t ≡ start + step * width
  pub after : now < t
  pub first : (m : ℕ) → now < start + m * width → step ≤ m

module _ (start now w m : ℕ) (begun : start ≤ now) (wide : 0 < w) where
  step-le : now < start + m * w → (now - start) / w + 1 ≤ m
  step-le p =
      let q : now - start < m * w = omega arith in omega (arith, (div-lt_iff_lt-mul wide).1 q)

lt-step : (start now w : ℕ) → start ≤ now → 0 < w → now < start + ((now - start) / w + 1) * w
lt-step start now w begun wide =
    let n = (now - start) / w in
    let split : (n + 1) * w ≡ n * w + w = grind arith in
    omega (arith, lt-div-mul-add {a = now - start} wide, split)

shift-pos : (t n : ℕ) {u : ℕ} → shift t (pos n) ≡ returned u → u ≡ t + n
unfolding shift
shift-pos t n h = ground arith

module _ (py : Python) where
  open py use {Raw, int}

  -- With a positive interval, an interval schedule that started less than 2 ^ 34 seconds (544 years)
  -- before now fires next at the first instant of its grid after now: later than now, a whole number
  -- of intervals after the start, and no earlier instant of the grid is after now. The bound is what
  -- the doubles of `total_seconds` need.
  pub interval_next-IsFirstStep :
      (raw : Raw) (k now start : ℕ) {t : ℕ}
      → int raw ≡ some (pos (suc k))
      → now - start < 2 ^ 34 * second
      → interval_next py raw now start ≡ returned t
      → IsFirstStep start (suc k * second) now t
  unfolding interval_next
  interval_next-IsFirstStep raw k now start {t} parsed recent h =
      elim (Bool-cases (ltb now start)) [
        | inl ahead ↦ record {
          step = 0;
          on_grid = ground arith;
          after = ground arith;
          first = λ m p. omega arith;
        }
        | inr begun ↦
            let w = suc k * second in
            let past : start ≤ now = ground arith in
            let s = whole_steps (now - start) (suc k) in
            let exact : s ≡ (now - start) / w = whole_steps-below (now - start) (suc k) recent in
            let e0 : t ≡ start + (s + 1) * w = shift-pos start ((s + 1) * w) (ground arith) in
            let e : t ≡ start + ((now - start) / w + 1) * w =
              e0 ∙ ap (λ n. start + (n + 1) * w) exact in
            record {
              step = (now - start) / w + 1;
              on_grid = e;
              after = rw e (lt-step start now w past (omega arith));
              first = λ m p. step-le start now w m past (omega arith) p;
            }
      ]

-- `t` is on the grid.
pub record IsOnGrid (start width t : ℕ) : Type 0 where
  pub step : ℕ
  pub on_grid : t ≡ start + step * width

module _ (py : Python) where
  open py use {Raw, int}

  -- However the doubles round, an interval schedule fires on its grid.
  pub interval_next-IsOnGrid :
      (raw : Raw) (k now start : ℕ) {t : ℕ}
      → int raw ≡ some (pos (suc k))
      → interval_next py raw now start ≡ returned t
      → IsOnGrid start (suc k * second) t
  unfolding interval_next
  interval_next-IsOnGrid raw k now start {t} parsed h = elim (Bool-cases (ltb now start)) [
    | inl ahead ↦ record { step = 0; on_grid = ground arith }
    | inr begun ↦
        let s = whole_steps (now - start) (suc k) in
        record {
          step = s + 1;
          on_grid = shift-pos start ((s + 1) * (suc k * second)) (ground arith);
        }
  ]

  -- From an instant of its grid it fires one interval later.
  pub interval_next-from_grid :
      (raw : Raw) (k n start : ℕ) {u : ℕ}
      → int raw ≡ some (pos (suc k))
      → interval_next py raw (start + n * (suc k * second)) start ≡ returned u
      → u ≡ start + (n + 1) * (suc k * second)
  unfolding interval_next
  interval_next-from_grid raw k n start {u} parsed h =
      let w = suc k * second in
      let now = start + n * w in
      let elapsed : now - start ≡ n * suc k * second = grind arith in
      let s = whole_steps (now - start) (suc k) in
      let exact : s ≡ n =
        ap (λ m. whole_steps m (suc k)) elapsed
        ∙ whole_steps-exact (n * suc k) (suc k)
        ∙ mul-div_cancel n (omega arith) in
      let begun : ltb now start ≡ false = ground arith in
      let e : u ≡ start + (s + 1) * w = shift-pos start ((s + 1) * w) (ground (arith, begun)) in
      e ∙ ap (λ m. start + (m + 1) * w) exact

-- `t` is the first instant after `now`, and not before a start, at the time `tod` of a UTC day.
pub record IsFirstDaily (tod now : ℕ) (start_at : Option ℕ) (t : ℕ) : Type 0 where
  pub at_tod : t % day ≡ tod
  pub after : now < t
  pub begun : (start : ℕ) → start_at ≡ some start → start ≤ t
  pub first :
      (u : ℕ) → u % day ≡ tod → now < u → ((start : ℕ) → start_at ≡ some start → start ≤ u) → t ≤ u

chosen : ℕ → ℕ → Option ℕ → Ended ℕ
unfolding shift
chosen target now start_at =
    if too_early target now start_at then shift target (pos day) else returned target

at_time-tod : (t h m : ℕ) → h ≤ 23 → m ≤ 59 → at_time t h m % day ≡ h * hour + m * minute
at_time-tod t h m p q = omega arith

chosen-IsFirstDaily :
    (h m now : ℕ) (start_at : Option ℕ) {t : ℕ}
    → h ≤ 23
    → m ≤ 59
    → chosen (at_time (boundary now start_at) h m) now start_at ≡ returned t
    → IsFirstDaily (h * hour + m * minute) now start_at t
unfolding chosen
chosen-IsFirstDaily h m now none p q e = record {
  at_tod = ground arith;
  after = ground arith;
  begun = λ start begins. absurd cc;
  first = λ u v w begins. ground arith;
}
chosen-IsFirstDaily h m now (some start_at) {t} p q e = record {
  at_tod = ground arith;
  after = ground arith;
  begun = λ start begins.
      let same_start : start_at ≡ start = ground (arith, begins) in
      let begun : start_at ≤ t = ground arith in omega (arith, same_start, begun);
  first = λ u v w begins. let begun = begins start_at refl in ground (arith, begun);
}

module _ (py : Python) where
  open py use {Raw, str, isdigit, int_text}

  -- The parts of an accepted daily time are an hour and a minute of the day.
  pub hour_minute_bounds :
      (parts : List (List ℕ)) {h m : ℕ}
      → hour_minute py parts ≡ returned (h, m)
      → (h ≤ 23) × (m ≤ 59)
  unfolding hour_minute
  hour_minute_bounds [] e = cc
  hour_minute_bounds (a ∷ []) e = cc
  hour_minute_bounds (a ∷ b ∷ []) e = ground arith
  hour_minute_bounds (a ∷ b ∷ c ∷ rest) e = cc

  pub daily_parts_bounds :
      (raw : Raw) {h m : ℕ} → daily_parts py raw ≡ returned (h, m) → (h ≤ 23) × (m ≤ 59)
  unfolding daily_parts
  daily_parts_bounds raw e = hour_minute_bounds (split_on b':' [] (str raw)) e

  -- A daily schedule at the time (h, m) fires next at the first instant at that time of a UTC day
  -- that is after now and not before its start.
  pub daily_next-IsFirstDaily :
      (raw : Raw) (h m now : ℕ) (start_at : Option ℕ) {t : ℕ}
      → daily_parts py raw ≡ returned (h, m)
      → daily_next py raw now start_at ≡ returned t
      → IsFirstDaily (h * hour + m * minute) now start_at t
  unfolding daily_next chosen
  daily_next-IsFirstDaily raw h m now start_at parsed e =
      let (p, q) = daily_parts_bounds raw parsed in
      chosen-IsFirstDaily h m now start_at p q (rw parsed at e)

  -- A daily schedule that fires has a time that parses.
  pub daily_next-parsed :
      (raw : Raw) (now : ℕ) (start_at : Option ℕ) {t : ℕ}
      → daily_next py raw now start_at ≡ returned t
      → (hm : ℕ × ℕ) × (daily_parts py raw ≡ returned hm)
  unfolding daily_next
  daily_next-parsed raw now start_at e =
      let (hm, parsed, _) = >>=-eq-returned (daily_parts py raw) _ e in (hm, parsed)
