-- ===== src/Helpers/Cycle/Contains.antt =====
-- The billing cycle that `cycle_bounds` (custom_components/zte_router_5g/helpers.py) finds for a moment.
use ha_zte_router_5g_monitor.Prelude.{
  ℕ, suc, ◌-◌, ◌≤◌, ◌<◌, ◌≡◌, refl, true, false, arith, ◌==◌, Bool-cases, inl, inr, ap, ◌∙◌, sym,
  ap₂, subst,
}
use ha_zte_router_5g_monitor.Helpers.Cycle.{
  Date, Moment, month_length, ordinal, before, min, clear_at, clear_before, clear_after,
  cycle_start, cycle_bounds,
}
use ha_zte_router_5g_monitor.Helpers.Cycle.Days.{after_december, after_month, length_bounds}

-- A date of the calendar.
pub record IsDate (d : Date) : Type 0 where
  pub year_pos : 1 ≤ d.year
  pub month_pos : 1 ≤ d.month
  pub month_le : d.month ≤ 12
  pub day_pos : 1 ≤ d.day
  pub day_le : d.day ≤ month_length d.year d.month

start_not_later :
    (clear_day : ℕ) (now : Moment)
    → IsDate now.date
    → before now (cycle_start clear_day now) ≡ false
unfolding cycle_start clear_before clear_at before
start_not_later clear_day now v =
    let a = v.month_pos in
    let b = v.year_pos in
    let c = min clear_day (month_length now.date.year now.date.month) in ground arith

before_january :
    (clear_day : ℕ) (d : Date)
    → d.month ≡ 1
    → clear_before clear_day d ≡ clear_at clear_day (d.year - 1) 12
unfolding clear_before
before_january clear_day d e = ground arith

before_month :
    (clear_day : ℕ) (d : Date)
    → (d.month == 1) ≡ false
    → clear_before clear_day d ≡ clear_at clear_day d.year (d.month - 1)
unfolding clear_before
before_month clear_day d n = ground arith

-- The clear day after that of the month before a date is the one of its own month.
after-before :
    (clear_day : ℕ) (d : Date)
    → IsDate d
    → clear_after clear_day (clear_before clear_day d).date ≡ clear_at clear_day d.year d.month
unfolding clear_after clear_before clear_at
after-before clear_day d v =
    let a = v.month_pos in
    let b = v.month_le in
    let c = v.year_pos in
    elim (Bool-cases (d.month == 1)) [
      | inl y ↦
          let e : d.month ≡ 1 = ground arith in
          let f : suc (d.year - 1) ≡ d.year = omega arith in
          ap (λ (m : Moment). clear_after clear_day m.date) (before_january clear_day d e)
          ∙ after_december clear_day (d.year - 1)
          ∙ ap₂ (clear_at clear_day) f (sym e)
      | inr n ↦
          let f : suc (d.month - 1) ≡ d.month = ground arith in
          ap (λ (m : Moment). clear_after clear_day m.date) (before_month clear_day d n)
          ∙ after_month clear_day d.year (d.month - 1) (omega arith)
          ∙ ap (clear_at clear_day d.year) f
    ]

next_is_later :
    (clear_day : ℕ) (now : Moment)
    → IsDate now.date
    → before now (clear_after clear_day now.date) ≡ true
unfolding before clear_after clear_at
next_is_later clear_day now v = let b = v.month_le in ground arith

same_month_after :
    (clear_day : ℕ) (d : Date)
    → clear_after clear_day (clear_at clear_day d.year d.month).date ≡ clear_after clear_day d
unfolding clear_after clear_at
same_month_after clear_day d = refl

end_later :
    (clear_day : ℕ) (now : Moment)
    → IsDate now.date
    → before now (clear_after clear_day (cycle_start clear_day now).date) ≡ true
unfolding cycle_start
end_later clear_day now v =
    let q = after-before clear_day now.date v in
    let n = next_is_later clear_day now v in
    let m = same_month_after clear_day now.date in ground (arith, q, n, m)

start-end :
    (clear_day : ℕ) (d : Date)
    → cycle_start clear_day (clear_after clear_day d) ≡ clear_after clear_day d
unfolding cycle_start clear_after clear_at before
start-end clear_day d = ground arith

start_is :
    (clear_day : ℕ) (now : Moment)
    → IsDate now.date
    → 1 < now.date.year
    → (year : ℕ) × (month : ℕ) × (cycle_start clear_day now ≡ clear_at clear_day year month)
      × (1 ≤ year)
      × (1 ≤ month)
      × (month ≤ 12)
unfolding cycle_start clear_before
start_is clear_day now v y =
    let a = v.month_pos in
    let b = v.month_le in
    elim (Bool-cases (before now (clear_at clear_day now.date.year now.date.month))) [
      | inr n ↦ (now.date.year, now.date.month, ground arith, omega arith, a, b)
      | inl n ↦ elim (Bool-cases (now.date.month == 1)) [
        | inl m ↦ (now.date.year - 1, 12, ground arith, omega arith, omega arith, omega arith)
        | inr m ↦ (
          now.date.year,
          now.date.month - 1,
          ground arith,
          omega arith,
          ground arith,
          omega arith,
        )
      ]
    ]

-- The billing cycle contains its moment: it starts no later and ends later. It is 28 to 31 days long,
-- whatever the clear day, and the next cycle starts where it ends.
pub cycle_bounds_lem :
    (clear_day : ℕ) (now : Moment)
    → IsDate now.date
    → 1 < now.date.year
    → 1 ≤ clear_day
    → let (start, end, length) = cycle_bounds clear_day now in
      (before now start ≡ false)
      × (before now end ≡ true)
      × (28 ≤ length)
      × (length ≤ 31)
      × ((cycle_bounds clear_day end).0 ≡ end)
unfolding cycle_bounds
cycle_bounds_lem clear_day now v y c =
    let (year, month, q, a, b, d) = start_is clear_day now v y in
    let (low, high) = length_bounds clear_day year month c a b d in
    let P = λ (m : Moment).
      (28 ≤ ordinal (clear_after clear_day m.date).date - ordinal m.date)
      × (ordinal (clear_after clear_day m.date).date - ordinal m.date ≤ 31) in
    let l = subst P (sym q) (low, high) in
    (
      start_not_later clear_day now v,
      end_later clear_day now v,
      l.0,
      l.1,
      start-end clear_day (cycle_start clear_day now).date,
    )
