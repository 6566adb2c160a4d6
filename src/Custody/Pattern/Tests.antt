-- ===== src/Custody/Pattern/Tests.antt =====
-- Patterns on concrete days.
use coparentes_backend.Common.{ℕ, ◌+◌, ◌*◌, ◌≡◌, refl, none}
use coparentes_backend.Custody.Dates.{
  ms_per_day, utc_day_start, get_utc_day, monday_of_calendar_week, weeks_apart,
}
use coparentes_backend.Custody.Pattern.{
  parent_b, every_other_weekend, resolve_week_pattern, get_custodian_for_date, effective_interval,
}

-- 2024-02-29, a Thursday, in days since 1 March of the year 0.
abbrev leap_day : ℕ
leap_day = 739250 * ms_per_day

saturday_is_with_b :
    get_custodian_for_date every_other_weekend leap_day
      (resolve_week_pattern every_other_weekend none none none)
      (leap_day + 2 * ms_per_day)
    ≡ parent_b
unfolding get_custodian_for_date resolve_week_pattern effective_interval weeks_apart
    monday_of_calendar_week get_utc_day utc_day_start
saturday_is_with_b = refl
