-- ===== src/Custody/Dates.antt =====
-- Calendar arithmetic in UTC (src/services/custody/dateUtils.js). An instant is the number of
-- milliseconds since 1 March of the year 0, a Wednesday; JavaScript counts from 719468 days later.
-- Years begin in March, so a month index is 12 times the year plus the months since March.
pub mod Laws
use coparentes_backend.Common.{
  ℕ, ◌+◌, ◌-◌, ◌*◌, ◌/◌, ◌%◌, Bool, true, false, ◌==◌, leb, if◌then◌else◌,
}

abbrev pub ms_per_day : ℕ
ms_per_day = 24 * 60 * 60 * 1000

abbrev pub ms_per_week : ℕ
ms_per_week = 7 * 24 * 60 * 60 * 1000

-- `utcDayStart`: the day's own year, month and date, at midnight.
unfoldable pub utc_day_start : ℕ → ℕ
utc_day_start t = t / ms_per_day * ms_per_day

-- `getUTCDay()`: 0 is Sunday.
unfoldable pub get_utc_day : ℕ → ℕ
get_utc_day t = (t / ms_per_day + 3) % 7

unfoldable pub add_utc_days : ℕ → ℕ → ℕ
add_utc_days t days = t + days * ms_per_day

-- `utcDay === 0 ? 6 : utcDay - 1`
abbrev pub days_from_monday : ℕ → ℕ
days_from_monday utc_day = if utc_day == 0 then 6 else utc_day - 1

unfoldable pub monday_of_calendar_week : ℕ → ℕ
unfolding utc_day_start get_utc_day
monday_of_calendar_week t =
    let day = utc_day_start t in day - days_from_monday (get_utc_day day) * ms_per_day

-- The number of weeks between the two Mondays. The code's index has a sign; both Mondays are whole
-- weeks apart, and callers only ask whether an interval divides the index.
unfoldable pub weeks_apart : ℕ → ℕ → ℕ
weeks_apart start current =
    let a = monday_of_calendar_week start in
    let b = monday_of_calendar_week current in
    if leb a b then (b - a) / ms_per_week else (a - b) / ms_per_week

-- Days before the first of a month, by its index.
unfoldable pub month_start : ℕ → ℕ
month_start m = let y = m / 12 in 365 * y + (y / 4 + y / 400 - y / 100) + (153 * (m % 12) + 2) / 5

-- The index of the month that a day lies in.
unfoldable pub month_index : ℕ → ℕ
month_index day =
    let era = day / 146097 in
    let doe = day % 146097 in
    let yoe = (doe + doe / 36524 - doe / 1460 - doe / 146096) / 365 in
    let doy = doe + yoe / 100 - (365 * yoe + yoe / 4) in
    12 * (400 * era + yoe) + (5 * doy + 2) / 153

-- `setUTCMonth(getUTCMonth() + months)`: the date may run over into the next month.
unfoldable pub add_utc_months : ℕ → ℕ → ℕ
add_utc_months t months =
    let day = t / ms_per_day in
    let m = month_index day in
    (month_start (m + months) + (day - month_start m)) * ms_per_day + t % ms_per_day
