-- ===== src/Helpers/Cycle/Days.antt =====
-- The days of the calendar that `cycle_bounds` (custom_components/zte_router_5g/helpers.py) counts.
use ha_zte_router_5g_monitor.Prelude.{
  ℕ, zero, suc, ◌+◌, ◌-◌, ◌≤◌, ◌<◌, ◌≡◌, refl, arith, ◌==◌, if◌then◌else◌, Bool-cases, inl, inr, ap,
  ◌∙◌, sym, subst,
}
use ha_zte_router_5g_monitor.Helpers.Cycle.{
  Date, Moment, is_leap, month_length, days_before_month, days_before_year, ordinal, min, clear_at,
  clear_after,
}

month_length_bounds :
    (year month : ℕ) → (28 ≤ month_length year month) × (month_length year month ≤ 31)
unfolding month_length
month_length_bounds year month = let l = is_leap year in ground arith

pub after_december :
    (clear_day year : ℕ)
    → clear_after clear_day (clear_at clear_day year 12).date ≡ clear_at clear_day (suc year) 1
unfolding clear_after clear_at
after_december clear_day year = refl

pub after_month :
    (clear_day year month : ℕ)
    → month < 12
    → clear_after clear_day (clear_at clear_day year month).date
      ≡ clear_at clear_day year (suc month)
unfolding clear_after clear_at
after_month clear_day year month lt = ground arith

days_to_december : (year : ℕ) → days_before_month year 12 + 31 ≡ (if is_leap year then 366 else 365)
unfolding days_before_month month_length
days_to_december year = let l = is_leap year in ground arith

year_step :
    (year : ℕ)
    → 1 ≤ year
    → days_before_year (suc year) ≡ days_before_year year + (if is_leap year then 366 else 365)
unfolding days_before_year
year_step zero h = ground arith
year_step (suc y) h = ground arith

month_step :
    (year month : ℕ)
    → 1 ≤ month
    → days_before_month year (suc month) ≡ days_before_month year month + month_length year month
unfolding days_before_month
month_step year zero h = ground arith
month_step year (suc m) h = refl

-- The days from the clear day of a month to that of the next are the length of the month, up to how
-- the clear day is cut to the two months.
abbrev DaysApart : ℕ → ℕ → ℕ → Type 0
DaysApart clear_day year month =
    let start = (clear_at clear_day year month).date in
    let end = (clear_after clear_day start).date in
    ordinal end + start.day ≡ ordinal start + month_length year month + end.day

december_days : (clear_day year : ℕ) → 1 ≤ year → DaysApart clear_day year 12
unfolding ordinal clear_at clear_after month_length days_before_year days_before_month
december_days clear_day year y = omega (arith, year_step year y, days_to_december year)

month_days : (clear_day year month : ℕ) → 1 ≤ month → month < 12 → DaysApart clear_day year month
unfolding ordinal clear_at days_before_year
month_days clear_day year month a b =
    let q = after_month clear_day year month b in
    subst
      (λ (m : Moment).
        ordinal m.date + (clear_at clear_day year month).date.day
        ≡ ordinal (clear_at clear_day year month).date + month_length year month + m.date.day)
      (sym q) (omega (arith, month_step year month a))

end_day :
    (clear_day : ℕ) (d : Date)
    → (year : ℕ) × (month : ℕ) × ((clear_after clear_day d).date.day
        ≡ min clear_day (month_length year month))
unfolding clear_after clear_at
end_day clear_day d = elim (Bool-cases (d.month == 12)) [
  | inl y ↦ (suc d.year, 1, ground arith)
  | inr n ↦ (d.year, suc d.month, ground arith)
]

length_arith :
    (start end len len' clear_day : ℕ)
    → end + min clear_day len ≡ start + len + min clear_day len'
    → (28 ≤ len) × (len ≤ 31)
    → (28 ≤ len') × (len' ≤ 31)
    → 1 ≤ clear_day
    → (28 ≤ end - start) × (end - start ≤ 31)
length_arith start end len len' clear_day h l l' c = ground arith

days-DaysApart :
    (clear_day year month : ℕ) → 1 ≤ year → 1 ≤ month → month ≤ 12 → DaysApart clear_day year month
days-DaysApart clear_day year month y a b = elim (Bool-cases (month == 12)) [
  | inl e ↦
      let f : month ≡ 12 = ground arith in
      subst (DaysApart clear_day year) (sym f) (december_days clear_day year y)
  | inr n ↦ month_days clear_day year month a (ground arith)
]

pub length_bounds :
    (clear_day year month : ℕ)
    → 1 ≤ clear_day
    → 1 ≤ year
    → 1 ≤ month
    → month ≤ 12
    → let start = (clear_at clear_day year month).date in
      let length = ordinal (clear_after clear_day start).date - ordinal start in
      (28 ≤ length) × (length ≤ 31)
unfolding clear_at
length_bounds clear_day year month c y a b =
    let start = (clear_at clear_day year month).date in
    let (year', month', e) = end_day clear_day start in
    let d = days-DaysApart clear_day year month y a b in
    length_arith (ordinal start) (ordinal (clear_after clear_day start).date)
      (month_length year month) (month_length year' month') clear_day
      (d ∙ ap (λ x. ordinal start + month_length year month + x) e) (month_length_bounds year month)
      (month_length_bounds year' month') c
