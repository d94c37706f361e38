-- ===== src/Schedule/Elapsed.antt =====
-- Where the float of `(now - start_at).total_seconds() // interval` in
-- src/proactive_agent/handler_schedule.py is the exact quotient.
use native.Mathlib.Nat.{
  div-eq_of_lt-le, div-div-eq-div-mul, mul-div-mul_left, pow-le-pow_right, one-le-pow,
  mul-le-mul_right,
}
use proactive_agent.Prelude.{
  ℕ, zero, suc, ◌+◌, ◌-◌, ◌*◌, ◌/◌, ◌%◌, ◌^◌, ◌≤◌, ◌<◌, ◌≡◌, sym, ap, ◌∙◌, ◌⊎◌, inl, inr, ltb, ◌==◌,
  Bool-cases, arith,
}
use proactive_agent.Schedule.{second, digits, units, round_half_even, total_seconds, whole_steps}

units-pos : (n : ℕ) → 0 < units n
unfolding units
units-pos n = let e = one-le-pow (53 - digits 40 (n / second)) 2 (omega arith) in omega (arith, e)

-- A number with few digits is small.
digits-le : (fuel k m : ℕ) → m < 2 ^ k → digits fuel m ≤ k
unfolding digits
digits-le zero k m h = omega arith
digits-le (suc fuel) zero m h = let e : m ≡ 0 = omega (arith, h) in ground (arith, e)
digits-le (suc fuel) (suc k) m h =
    let half : m / 2 < 2 ^ k = omega (arith, h) in
    let rest = digits-le fuel k (m / 2) half in ground (arith, rest)

-- Below 2 ^ 34 seconds, two doubles are less than two microseconds apart.
units-fine : (n : ℕ) → n < 2 ^ 34 * second → 2 ^ 19 ≤ units n
unfolding units
units-fine n h =
    let few = digits-le 40 34 (n / second) (omega (arith, h)) in
    pow-le-pow_right {n = 2} (omega arith) {i = 19} (omega (arith, few))

round-cases :
    (a b : ℕ)
    → (round_half_even a b ≡ a / b) ⊎ ((round_half_even a b ≡ a / b + 1) × (b ≤ 2 * (a % b)))
unfolding round_half_even
round-cases a b = elim (Bool-cases (ltb (2 * (a % b)) b)) [
  | inl less ↦ inl (ground (arith, less))
  | inr more ↦ elim (Bool-cases (ltb b (2 * (a % b)))) [
    | inl above ↦ inr (ground (arith, more, above), ground (arith, more))
    | inr half ↦ elim (Bool-cases (a / b % 2 == 0)) [
      | inl even ↦ inl (ground (arith, more, half, even))
      | inr odd ↦ inr (ground (arith, more, half, odd), ground (arith, more))
    ]
  ]
]

-- A multiple of a second is told exactly.
total_seconds-exact : (m : ℕ) → total_seconds (m * second) ≡ m * units (m * second)
unfolding total_seconds
total_seconds-exact m =
    let p = units (m * second) in
    let a : m * second * p ≡ m * p * second = grind arith in
    rw a (elim (round-cases (m * p * second) second) [
      | inl e ↦ omega (arith, e)
      | inr (e, big) ↦ absurd (omega (arith, big))
    ])

-- The quotient of a whole number of seconds is exact.
pub whole_steps-exact : (m w : ℕ) → whole_steps (m * second) w ≡ m / w
unfolding whole_steps
whole_steps-exact m w =
    let p = units (m * second) in
    let e : total_seconds (m * second) ≡ p * m = grind (arith, total_seconds-exact m) in
    rw e (mul-div-mul_left m w (units-pos (m * second)))

scaled-low : (m n p : ℕ) → m * second ≤ n → m * p * second ≤ n * p
scaled-low m n p h =
    let e : m * p * second ≡ m * second * p = grind arith in rw e (mul-le-mul_right p h)

scaled-high : (m n p : ℕ) → n + 1 ≤ (m + 1) * second → n * p + p ≤ (m + 1) * p * second
scaled-high m n p h =
    let e : (m + 1) * p * second ≡ (m + 1) * second * p = grind arith in
    let f : n * p + p ≡ (n + 1) * p = grind arith in rw (e, f) (mul-le-mul_right p h)

-- A double that is told from `total_seconds` has the right whole seconds.
total_seconds-whole : (n : ℕ) → n < 2 ^ 34 * second → total_seconds n / units n ≡ n / second
unfolding total_seconds
total_seconds-whole n h =
    let p = units n in
    let m = n / second in
    let fine = units-fine n h in
    let low = scaled-low m n p (omega arith) in
    let high = scaled-high m n p (omega arith) in
    div-eq_of_lt-le p
      (elim (round-cases (n * p) second) [
        | inl e ↦ omega (arith, e, low)
        | inr (e, big) ↦ omega (arith, e, low)
      ])
      (elim (round-cases (n * p) second) [
        | inl e ↦ omega (arith, e, high, units-pos n)
        | inr (e, big) ↦ omega (arith, e, big, high, fine)
      ])

-- The quotient is exact below 2 ^ 34 seconds.
pub whole_steps-below : (n w : ℕ) → n < 2 ^ 34 * second → whole_steps n w ≡ n / (w * second)
unfolding whole_steps
whole_steps-below n w h =
    sym (div-div-eq-div-mul (total_seconds n) (units n) w)
    ∙ ap (λ x. x / w) (total_seconds-whole n h)
    ∙ div-div-eq-div-mul n second w
    ∙ ap (λ x. n / x) (let e : second * w ≡ w * second = grind arith in e)
