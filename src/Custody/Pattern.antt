-- ===== src/Custody/Pattern.antt =====
-- Week patterns (src/services/custody/pattern.js and constants.js). A stored week is the value that
-- its JSON text holds: the custodian of each day, where one is given, and the interval that is
-- kept beside the days.
pub mod Alternation
mod Tests
use coparentes_backend.Common.{
  ℕ, ◌+◌, ◌%◌, ◌≡◌, Bool, true, false, ◌&&◌, Option, none, some, ltb, ◌==◌, if◌then◌else◌,
}
use coparentes_backend.Custody.Dates.{utc_day_start, get_utc_day, weeks_apart}

-- `UserRole`
pub data Role : Type 0 where
  parent_a parent_b child observer : Role

abbrev pub is_parent : Role → Bool
is_parent parent_a = true
is_parent parent_b = true
is_parent _ = false

abbrev pub same_role : Role → Role → Bool
same_role parent_a parent_a = true
same_role parent_b parent_b = true
same_role child child = true
same_role observer observer = true
same_role _ _ = false

-- `CustodySchedulePattern`
pub data PatternType : Type 0 where
  week_alternating every_other_weekend custom_week : PatternType

-- `DAY_NAMES`, from Sunday.
pub data Day : Type 0 where
  sunday monday tuesday wednesday thursday friday saturday : Day

abbrev pub day_name : ℕ → Day
day_name n =
    if n == 0
    then sunday
    else if n == 1
    then monday
    else if n == 2
    then tuesday
    else if n == 3
    then wednesday
    else if n == 4
    then thursday
    else if n == 5
    then friday
    else saturday

abbrev pub Days : Type 0
Days = Day → Option Role

pub record Week : Type 0 where
  pub days : Days
  pub interval : Option ℕ

abbrev pub all_parent_a : Days
all_parent_a d = some parent_a

abbrev pub all_parent_b : Days
all_parent_b d = some parent_b

abbrev pub weekend_of : Role → Role → Days
weekend_of week rest saturday = some rest
weekend_of week rest sunday = some rest
weekend_of week rest _ = some week

abbrev pub plain : Days → Week
plain d = record { days = d; interval = none }

pub record Weeks : Type 0 where
  pub week_a : Week
  pub week_b : Week

abbrev pub days_or : Option Days → Days → Days
days_or none d = d
days_or (some d) _ = d

-- `Number.isFinite(weekInterval) && weekInterval > 0 ? weekInterval : 2`
abbrev pub interval_or_two : Option ℕ → ℕ
interval_or_two none = 2
interval_or_two (some n) = if ltb 0 n then n else 2

-- `resolveWeekPattern`; a preset for every other value of the enumeration.
unfoldable pub resolve_week_pattern : PatternType → Option Days → Option Days → Option ℕ → Weeks
resolve_week_pattern custom_week a b n = record {
  week_a = record { days = days_or a all_parent_a; interval = some (interval_or_two n) };
  week_b = plain (days_or b all_parent_b);
}
resolve_week_pattern week_alternating a b n = record {
  week_a = plain all_parent_a;
  week_b = plain all_parent_b;
}
resolve_week_pattern every_other_weekend a b n = record {
  week_a = plain (weekend_of parent_a parent_b);
  week_b = plain (weekend_of parent_b parent_a);
}

-- The interval of `parseWeekPayload`.
abbrev pub parsed_interval : Week → Option ℕ
parsed_interval w = elim w.interval [ none ↦ none | some n ↦ if ltb 0 n then some n else none ]

abbrev pub same_custodian : Option Role → Option Role → Bool
same_custodian none none = true
same_custodian (some a) (some b) = same_role a b
same_custodian _ _ = false

-- `weeksEqual`
unfoldable pub weeks_equal : Days → Days → Bool
weeks_equal a b =
    same_custodian (a monday) (b monday)
    && (same_custodian (a tuesday) (b tuesday)
        && (same_custodian (a wednesday) (b wednesday)
            && (same_custodian (a thursday) (b thursday)
                && (same_custodian (a friday) (b friday)
                    && (same_custodian (a saturday) (b saturday)
                        && same_custodian (a sunday) (b sunday))))))

-- `week[dayName] ?? week.monday ?? 'parentA'`
abbrev pub custodian_on : Days → Day → Role
custodian_on week d = elim (week d) [
  | some r ↦ r
  | none ↦ elim (week monday) [ some r ↦ r | none ↦ parent_a ]
]

-- The interval that decides between the two weeks.
unfoldable pub effective_interval : PatternType → Weeks → ℕ
unfolding weeks_equal
effective_interval custom_week w = elim (parsed_interval w.week_a) [
  | some n ↦ n
  | none ↦ if weeks_equal w.week_a.days w.week_b.days then 1 else 2
]
effective_interval _ w = 2

-- `getCustodianForDate` of a schedule's pattern, start and weeks.
unfoldable pub get_custodian_for_date : PatternType → ℕ → Weeks → ℕ → Role
get_custodian_for_date p start w date =
    let d = day_name (get_utc_day (utc_day_start date)) in
    if weeks_apart start date % effective_interval p w == 0
    then custodian_on w.week_a.days d
    else custodian_on w.week_b.days d
