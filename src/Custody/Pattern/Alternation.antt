-- ===== src/Custody/Pattern/Alternation.antt =====
-- What the patterns mean for the days that follow the start.
use coparentes_backend.Common.{
  ℕ, zero, suc, ◌+◌, ◌*◌, ◌%◌, ◌≤◌, ◌≡◌, ◌≢◌, refl, Option, none, some, arith, ◌==◌, if◌then◌else◌,
}
use native.Mathlib.Nat.{add-zero, add-mod_right}
use coparentes_backend.Custody.Dates.{
  ms_per_day, ms_per_week, utc_day_start, get_utc_day, monday_of_calendar_week, weeks_apart,
}
use coparentes_backend.Custody.Pattern.{
  Role, Day, parent_a, parent_b, PatternType, week_alternating, every_other_weekend, custom_week,
  Days, weekend_of, interval_or_two, resolve_week_pattern, get_custodian_for_date,
  effective_interval, custodian_on, day_name,
}

-- A week later the Monday is a week later, and the week index is one higher.
monday_week_later :
    (t : ℕ)
    → 7 * ms_per_day ≤ t
    → monday_of_calendar_week (t + ms_per_week) ≡ monday_of_calendar_week t + ms_per_week
unfolding monday_of_calendar_week get_utc_day utc_day_start
monday_week_later t h = ground arith

monday_mono :
    (s t : ℕ) → 7 * ms_per_day ≤ s → s ≤ t → monday_of_calendar_week s ≤ monday_of_calendar_week t
unfolding monday_of_calendar_week get_utc_day utc_day_start
monday_mono s t h le = ground arith

weeks_apart_next :
    (start t : ℕ)
    → 7 * ms_per_day ≤ start
    → start ≤ t
    → weeks_apart start (t + ms_per_week) ≡ weeks_apart start t + 1
unfolding weeks_apart
weeks_apart_next start t h le =
    ground (arith, monday_week_later t (omega arith), monday_mono start t h le)

abbrev pub other_parent : Role → Role
other_parent parent_a = parent_b
other_parent parent_b = parent_a
other_parent r = r

same_day_next_week :
    (t : ℕ) → get_utc_day (utc_day_start (t + ms_per_week)) ≡ get_utc_day (utc_day_start t)
unfolding get_utc_day utc_day_start
same_day_next_week t = omega arith

-- The choice between two weeks that mirror one another, one week apart.
other_week :
    (k j : ℕ) (x y : Role)
    → j ≡ k + 1
    → y ≡ other_parent x
    → x ≡ other_parent y
    → (if j % 2 == 0 then x else y) ≡ other_parent (if k % 2 == 0 then x else y)
other_week k j x y e p q = ground arith

mirrored :
    (d : Day)
    → (custodian_on (weekend_of parent_b parent_a) d
        ≡ other_parent (custodian_on (weekend_of parent_a parent_b) d))
      × (custodian_on (weekend_of parent_a parent_b) d
          ≡ other_parent (custodian_on (weekend_of parent_b parent_a) d))
mirrored d = ground arith

-- Under both presets the parents swap every day of the week from one week to the next, from the
-- start of the schedule on.
pub presets_alternate :
    (p : PatternType) (start t : ℕ) (a b : Option Days) (n : Option ℕ)
    → p ≢ custom_week
    → 7 * ms_per_day ≤ start
    → start ≤ t
    → get_custodian_for_date p start (resolve_week_pattern p a b n) (t + ms_per_week)
      ≡ other_parent (get_custodian_for_date p start (resolve_week_pattern p a b n) t)
unfolding get_custodian_for_date resolve_week_pattern effective_interval
presets_alternate week_alternating start t a b n preset early le =
    other_week _ _ parent_a parent_b (weeks_apart_next start t early le) refl refl
presets_alternate every_other_weekend start t a b n preset early le = rw (same_day_next_week t) (
    other_week (weeks_apart start t) _ _ _ (weeks_apart_next start t early le)
      (mirrored (day_name (get_utc_day (utc_day_start t)))).0
      (mirrored (day_name (get_utc_day (utc_day_start t)))).1)
presets_alternate custom_week start t a b n preset early le = absurd (preset refl)

weeks_apart_later :
    (k start t : ℕ)
    → 7 * ms_per_day ≤ start
    → start ≤ t
    → weeks_apart start (t + k * ms_per_week) ≡ weeks_apart start t + k
weeks_apart_later zero start t early le = rw (add-zero t, add-zero (weeks_apart start t))
weeks_apart_later (suc k) start t early le =
    let next = weeks_apart_next start (t + k * ms_per_week) early (omega arith) in
    let e : t + suc k * ms_per_week ≡ t + k * ms_per_week + ms_per_week = omega arith in
    rw e (omega (arith, next, weeks_apart_later k start t early le))

same_day_later :
    (k t : ℕ) → get_utc_day (utc_day_start (t + k * ms_per_week)) ≡ get_utc_day (utc_day_start t)
unfolding get_utc_day utc_day_start
same_day_later k t = omega arith

custom_interval :
    (a b : Option Days) (n : Option ℕ)
    → effective_interval custom_week (resolve_week_pattern custom_week a b n) ≡ interval_or_two n
unfolding effective_interval resolve_week_pattern
custom_interval a b none = refl
custom_interval a b (some n) = ground arith

-- A custom pattern repeats after its interval: the custodian of a day is the one of the same day
-- `interval` weeks later, with the interval that the schedule was proposed with, or 2 where none
-- or zero was given.
pub custom_week_repeats :
    (start t : ℕ) (a b : Option Days) (n : Option ℕ)
    → 7 * ms_per_day ≤ start
    → start ≤ t
    → get_custodian_for_date custom_week start
        (resolve_week_pattern custom_week a b n)
        (t + interval_or_two n * ms_per_week)
      ≡ get_custodian_for_date custom_week start (resolve_week_pattern custom_week a b n) t
unfolding get_custodian_for_date
custom_week_repeats start t a b n early le = rw (
  custom_interval a b n,
  weeks_apart_later (interval_or_two n) start t early le,
  same_day_later (interval_or_two n) t,
  add-mod_right (weeks_apart start t) (interval_or_two n),
)
