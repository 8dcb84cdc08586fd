-- ===== src/Coordinator/Uptime/Bounds.antt =====
-- How far a derived start instant can lie from the reading (`_drift_rate`, `_derived_boot` of
-- custom_components/zte_router_5g/coordinator.py).
use native.Mathlib.Nat.{
  le_of_mul-le-mul_right, lt_of_mul-lt-mul_right, mul-le-mul_left, div-mul-le_self, lt-div-mul-add,
  mul_comm, mul_assoc,
}
use ha_zte_router_5g_monitor.Prelude.{
  ℕ, ◌+◌, ◌*◌, ◌/◌, ◌≤◌, ◌<◌, ◌≡◌, refl, Option, none, some, arith, Bool-cases, ltb, ◌||◌,
}
use ha_zte_router_5g_monitor.Coordinator.Uptime.{
  second, drift_min_accumulated, clock_floor, max_plausible_uptime, Pace, Latch,
}
use ha_zte_router_5g_monitor.Coordinator.Uptime.Rate.{clamped, drift_rate, elapsed_of, derived_boot}

-- A pace within a fifth of wall time.
pub record IsFair (p : Pace) : Type 0 where
  pub proper : 0 < p.den
  pub not_slow : 4 * p.den ≤ 5 * p.num
  pub not_fast : 5 * p.num ≤ 6 * p.den

clamped-IsFair : (counter wall : ℕ) → 0 < wall → IsFair (clamped counter wall)
unfolding clamped
clamped-IsFair counter wall h = record {
  proper = ground arith;
  not_slow = ground arith;
  not_fast = ground arith;
}

pub drift_rate-IsFair : (l : Latch) (p : Pace) → drift_rate l ≡ some p → IsFair p
unfolding drift_rate
drift_rate-IsFair l p h =
    let f = clamped-IsFair l.drift_sum_counter l.drift_sum_wall in
    let t = Bool-cases (l.pauses || ltb l.drift_sum_wall drift_min_accumulated) in
    ground (arith, t, f)

slow_lem : (s num den : ℕ) → 0 < num → 4 * den ≤ 5 * num → 4 * (s * den / num) ≤ 5 * s
slow_lem s num den pos h =
    let e = s * den / num in
    let floor : e * num ≤ s * den = div-mul-le_self (s * den) num in
    let wide : s * (4 * den) ≤ s * (5 * num) = mul-le-mul_left s h in
    le_of_mul-le-mul_right {k = num} (grind (arith, mul_assoc, mul_comm)) pos

cross :
    (s e num den : ℕ)
    → s * den < e * num + num
    → (e + 1) * (5 * num) ≤ (e + 1) * (6 * den)
    → s * 5 * den < (e + 1) * 6 * den
cross s e num den h k = omega arith

fast_lem : (s num den : ℕ) → 0 < num → 0 < den → 5 * num ≤ 6 * den → 5 * s ≤ 6 * (s * den / num) + 6
fast_lem s num den pos proper h =
    let e = s * den / num in
    let above : s * den < e * num + num = lt-div-mul-add pos in
    let wide : (e + 1) * (5 * num) ≤ (e + 1) * (6 * den) = mul-le-mul_left (e + 1) h in
    let b : s * 5 * den < (e + 1) * 6 * den = cross s e num den above wide in
    let c : s * 5 < (e + 1) * 6 = lt_of_mul-lt-mul_right den b in omega (arith, c)

elapsed_of-slow :
    (o : Option Pace) (seconds : ℕ)
    → ((p : Pace) → o ≡ some p → IsFair p)
    → 4 * elapsed_of o seconds ≤ 5 * (seconds * second)
unfolding elapsed_of
elapsed_of-slow none seconds f = omega arith
elapsed_of-slow (some p) seconds f =
    let v = f p refl in
    let d = v.proper in
    let n = v.not_slow in slow_lem (seconds * second) p.num p.den (omega arith) n

elapsed_of-fast :
    (o : Option Pace) (seconds : ℕ)
    → ((p : Pace) → o ≡ some p → IsFair p)
    → 5 * (seconds * second) ≤ 6 * elapsed_of o seconds + 6
unfolding elapsed_of
elapsed_of-fast none seconds f = omega arith
elapsed_of-fast (some p) seconds f =
    let v = f p refl in
    let d = v.proper in
    let n = v.not_slow in fast_lem (seconds * second) p.num p.den (omega arith) d v.not_fast

-- The start instant derived from an accepted reading lies before now by at least five sixths, and by
-- at most five quarters, of what the counter reads (to one microsecond), whatever pace was learned;
-- it is after 1970, so the subtraction loses nothing.
pub derived_boot_bounds :
    (l : Latch) (seconds now : ℕ)
    → clock_floor ≤ now
    → seconds ≤ max_plausible_uptime
    → (4 * now ≤ 4 * derived_boot l seconds now + 5 * (seconds * second))
      × (6 * derived_boot l seconds now + 5 * (seconds * second) ≤ 6 * now + 6)
      × (0 < derived_boot l seconds now)
unfolding derived_boot
derived_boot_bounds l seconds now floor limit =
    let slow = elapsed_of-slow (drift_rate l) seconds (drift_rate-IsFair l) in
    let fast = elapsed_of-fast (drift_rate l) seconds (drift_rate-IsFair l) in
    omega (arith, slow, fast)
