-- ===== src/Helpers/Cycle.antt =====
-- `cycle_bounds` (custom_components/zte_router_5g/helpers.py): the billing cycle that contains a local
-- time. Dates are those of Python's `datetime`, in one time zone, without its limit at the year 9999.
pub mod Days
pub mod Contains
use ha_zte_router_5g_monitor.Prelude.{
  ℕ, zero, suc, ◌+◌, ◌-◌, ◌*◌, ◌/◌, ◌%◌, Bool, true, false, ◌&&◌, ◌||◌, not, Option, none, some,
  ltb, leb, ◌==◌, if◌then◌else◌,
}

pub record Date : Type 0 where
  pub year : ℕ
  pub month : ℕ
  pub day : ℕ

-- A date and the microseconds since its midnight.
pub record Moment : Type 0 where
  pub date : Date
  pub time : ℕ

abbrev pub is_leap : ℕ → Bool
is_leap y = y % 4 == 0 && (not (y % 100 == 0) || y % 400 == 0)

-- `monthrange(year, month)[1]`.
unfoldable pub month_length : ℕ → ℕ → ℕ
month_length year month =
    if month == 2
    then (if is_leap year then 29 else 28)
    else if month == 4 || (month == 6 || (month == 9 || month == 11))
    then 30
    else 31

-- The days before the month in its year, and before the year: `toordinal` less the day.
unfoldable pub days_before_month : ℕ → ℕ → ℕ
days_before_month year zero = 0
days_before_month year (suc zero) = 0
days_before_month year (suc (suc m)) = days_before_month year (suc m) + month_length year (suc m)

unfoldable pub days_before_year : ℕ → ℕ
days_before_year year = let y = year - 1 in 365 * y + y / 4 - y / 100 + y / 400

-- `date.toordinal()`.
unfoldable pub ordinal : Date → ℕ
ordinal d = days_before_year d.year + days_before_month d.year d.month + d.day

abbrev pub date_before : Date → Date → Bool
date_before a b =
    ltb a.year b.year
    || a.year == b.year && (ltb a.month b.month || a.month == b.month && ltb a.day b.day)

abbrev pub same_date : Date → Date → Bool
same_date a b = a.year == b.year && (a.month == b.month && a.day == b.day)

-- `a < b`.
unfoldable pub before : Moment → Moment → Bool
before a b = date_before a.date b.date || same_date a.date b.date && ltb a.time b.time

abbrev pub min : ℕ → ℕ → ℕ
min a b = if ltb b a then b else a

-- `_at`: midnight on the clear day of a month.
unfoldable pub clear_at : ℕ → ℕ → ℕ → Moment
clear_at clear_day year month = record {
  date = record { year = year; month = month; day = min clear_day (month_length year month) };
  time = 0;
}

-- The clear day of the month before, and of the month after.
unfoldable pub clear_before : ℕ → Date → Moment
clear_before clear_day d =
    if d.month == 1
    then clear_at clear_day (d.year - 1) 12
    else clear_at clear_day d.year (d.month - 1)

unfoldable pub clear_after : ℕ → Date → Moment
clear_after clear_day d =
    if d.month == 12
    then clear_at clear_day (suc d.year) 1
    else clear_at clear_day d.year (suc d.month)

unfoldable pub cycle_start : ℕ → Moment → Moment
cycle_start clear_day now =
    let this = clear_at clear_day now.date.year now.date.month in
    if before now this then clear_before clear_day now.date else this

-- `cycle_bounds`.
unfoldable pub cycle_bounds : ℕ → Moment → Moment × Moment × ℕ
cycle_bounds clear_day now =
    let start = cycle_start clear_day now in
    let end = clear_after clear_day start.date in
    (start, end, ordinal end.date - ordinal start.date)
