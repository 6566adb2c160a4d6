-- ===== src/Custody/Dates/Laws.antt =====
-- What the calendar arithmetic guarantees.
use coparentes_backend.Common.{ℕ, ◌+◌, ◌-◌, ◌*◌, ◌/◌, ◌%◌, ◌≤◌, ◌<◌, ◌≡◌, refl, arith}
use coparentes_backend.Custody.Dates.{
  ms_per_day, ms_per_week, utc_day_start, get_utc_day, add_utc_days, monday_of_calendar_week,
  month_start, month_index, add_utc_months,
}

-- 2024-02-29, 2024-01-31 and 2023-08-31, in days since 1 March of the year 0.
abbrev leap_day : ℕ
leap_day = 719468 + 19782

leap_day_plus_year : add_utc_months (leap_day * ms_per_day) 12 ≡ (leap_day + 366) * ms_per_day
unfolding add_utc_months month_start month_index
leap_day_plus_year = refl

january_plus_month : add_utc_months ((leap_day - 29) * ms_per_day) 1 ≡ (leap_day + 2) * ms_per_day
unfolding add_utc_months month_start month_index
january_plus_month = refl

leap_day_is_thursday : get_utc_day (leap_day * ms_per_day) ≡ 4
unfolding get_utc_day
leap_day_is_thursday = refl

-- A day start is a whole number of days, no later than the instant and less than a day before it.
pub utc_day_start_bounds :
    (t : ℕ)
    → (utc_day_start t ≤ t)
      × (t < utc_day_start t + ms_per_day)
      × (utc_day_start t % ms_per_day ≡ 0)
unfolding utc_day_start
utc_day_start_bounds t = omega arith

pub utc_day_start_idempotent : (t : ℕ) → utc_day_start (utc_day_start t) ≡ utc_day_start t
unfolding utc_day_start
utc_day_start_idempotent t = omega arith

-- From the first week of the count on, the Monday of a week is a Monday, at most six days back.
pub monday_bounds :
    (t : ℕ)
    → 7 * ms_per_day ≤ t
    → let m = monday_of_calendar_week t in
      (get_utc_day m ≡ 1) × (m ≤ t) × (t < m + ms_per_week) × (m % ms_per_week ≡ 5 * ms_per_day)
unfolding monday_of_calendar_week get_utc_day
monday_bounds t h = ground arith

month_start_year :
    (m : ℕ)
    → (month_start m + 365 ≤ month_start (m + 12)) × (month_start (m + 12) ≤ month_start m + 366)
unfolding month_start
month_start_year m = omega arith

-- A day does not come before the first of its month.
pub month_start-month_index_le : (day : ℕ) → month_start (month_index day) ≤ day
unfolding month_start month_index
month_start-month_index_le day = omega arith

-- Twelve months on is 365 or 366 days later, from every instant.
pub add_utc_months_year :
    (t : ℕ)
    → (t + 365 * ms_per_day ≤ add_utc_months t 12) × (add_utc_months t 12 ≤ t + 366 * ms_per_day)
unfolding add_utc_months
add_utc_months_year t =
    let m = month_index (t / ms_per_day) in
    omega (arith, month_start_year m, month_start-month_index_le (t / ms_per_day))

-- From a day start, both ways of moving on lead to a day start.
pub add_utc_months_whole : (t n : ℕ) → t % ms_per_day ≡ 0 → add_utc_months t n % ms_per_day ≡ 0
unfolding add_utc_months
add_utc_months_whole t n h = omega arith

pub add_utc_days_whole : (t n : ℕ) → t % ms_per_day ≡ 0 → add_utc_days t n % ms_per_day ≡ 0
unfolding add_utc_days
add_utc_days_whole t n h = omega arith
