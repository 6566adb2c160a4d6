-- ===== src/Custody/Slots.antt =====
-- The slots of the custody calendar and their generation (slotGeneration.js, slotActions.js).
pub mod Coverage
pub mod Generation
mod Tests
use coparentes_backend.Common.{
  ℕ, zero, suc, ◌+◌, ◌-◌, ◌*◌, ◌/◌, ◌≡◌, Bool, true, false, not, ◌&&◌, ◌||◌, Option, none, some,
  List, [], ◌∷◌, map, String, any, length, ◌==◌, leb, ltb, is_some, same_id, if◌then◌else◌, Result,
  ok, err, throw_if, ◌>>=◌, ◌>>◌, slot_not_allowed, schedule_locked,
}
use coparentes_backend.Common.Store.{Store}
use coparentes_backend.Custody.Dates.{ms_per_day, utc_day_start, add_utc_days, add_utc_months}
use coparentes_backend.Custody.Pattern.{Role, is_parent, PatternType, Weeks, get_custodian_for_date}

-- `CustodySlotSource`
pub data Source : Type 0 where
  schedule exception manual swap : Source

-- `source: { in: ['exception', 'swap'] }`
abbrev pub is_protected : Source → Bool
is_protected exception = true
is_protected swap = true
is_protected _ = false

abbrev pub from_schedule : Source → Bool
from_schedule schedule = true
from_schedule _ = false

pub record Slot : Type 0 where
  pub id : ℕ
  pub workspace_id : ℕ
  pub date : ℕ
  pub custodian : Role
  pub handover_location : Option String
  pub handover_time : Option String
  pub source : Source
  pub schedule_id : Option ℕ
  pub exception_id : Option ℕ

-- `CustodyScheduleStatus`
pub data ScheduleStatus : Type 0 where
  draft pending_approval active superseded : ScheduleStatus

pub record Schedule : Type 0 where
  pub id : ℕ
  pub workspace_id : ℕ
  pub pattern_type : PatternType
  pub start_date : ℕ
  pub end_date : Option ℕ
  pub weeks : Weeks
  pub handover_time : Option String
  pub handover_location : Option String
  pub status : ScheduleStatus
  pub proposed_by_id : ℕ
  pub approved_by_id : Option ℕ
  pub approved_at : Option ℕ

-- `GENERATION_MONTHS`
abbrev pub generation_months : ℕ
generation_months = 12

-- The first day that is no longer generated.
unfoldable pub generation_end : Schedule → ℕ → ℕ
generation_end sch months = elim sch.end_date [
  | some last ↦ add_utc_days (utc_day_start last) 1
  | none ↦ add_utc_months (utc_day_start sch.start_date) months
]

-- The loop `for (cursor = start; cursor < end; cursor += 1 day)`, on the number of rounds.
unfoldable pub days_from : ℕ → ℕ → List ℕ
days_from cursor zero = []
days_from cursor (suc n) = cursor ∷ days_from (cursor + ms_per_day) n

-- Both ends are day starts, so this many rounds are made.
unfoldable pub generated_days : Schedule → ℕ → List ℕ
unfolding days_from
generated_days sch months =
    let start = utc_day_start sch.start_date in
    days_from start ((generation_end sch months - start) / ms_per_day)

-- `where: { workspaceId_date: … }`
abbrev pub at_day : ℕ → ℕ → Slot → Bool
at_day ws d sl = sl.workspace_id == ws && sl.date == d

-- The slot that a schedule generates for a day; the id is the database's.
abbrev pub schedule_slot : (ℕ → ℕ) → Schedule → ℕ → Slot
schedule_slot new_id sch d = record {
  id = new_id d;
  workspace_id = sch.workspace_id;
  date = d;
  custodian = get_custodian_for_date sch.pattern_type sch.start_date sch.weeks d;
  handover_location = sch.handover_location;
  handover_time = sch.handover_time;
  source = schedule;
  schedule_id = some sch.id;
  exception_id = none;
}

-- `update` of the generation's `upsert`.
abbrev pub write_schedule : Schedule → ℕ → Slot → Slot
write_schedule sch d sl = record sl {
  custodian = get_custodian_for_date sch.pattern_type sch.start_date sch.weeks d;
  handover_location = sch.handover_location;
  handover_time = sch.handover_time;
  source = schedule;
  schedule_id = some sch.id;
  exception_id = none;
}

-- The days that are kept out of `rows`.
abbrev pub day_in : List ℕ → ℕ → Bool
day_in ds d = any (λ x. x == d) ds

abbrev pub in_range : ℕ → ℕ → ℕ → Bool
in_range from to d = leb from d && ltb d to

-- `for (const row of rows) upsert(row)`, with the days of `protectedDays` skipped.
unfoldable pub upsert_days :
    (s : Store) → (ℕ → ℕ) → Schedule → List ℕ → List ℕ → s.Table Slot → s.Table Slot
upsert_days s new_id sch protected [] t = t
upsert_days s new_id sch protected (d ∷ ds) t = upsert_days s new_id sch protected ds (
    if day_in protected d
    then t
    else s.upsert (at_day sch.workspace_id d) (write_schedule sch d) (schedule_slot new_id sch d) t)

-- `protectedDays`, and the delete of the schedule's own rows in the range.
unfoldable pub protected_days : (s : Store) → Schedule → ℕ → s.Table Slot → List ℕ
protected_days s sch end t =
    map (λ sl. utc_day_start sl.date)
      (s.find_many
        (λ sl.
          sl.workspace_id == sch.workspace_id
          && (in_range (utc_day_start sch.start_date) end sl.date && is_protected sl.source))
        t)

unfoldable pub delete_generated : (s : Store) → Schedule → ℕ → s.Table Slot → s.Table Slot
delete_generated s sch end = s.delete_many (λ sl.
    (sl.workspace_id == sch.workspace_id && same_id sl.schedule_id sch.id)
    && (from_schedule sl.source && in_range (utc_day_start sch.start_date) end sl.date))

-- `generateSlotsFromSchedule`
unfoldable pub generate_slots_from_schedule :
    (s : Store) → (ℕ → ℕ) → Schedule → ℕ → s.Table Slot → s.Table Slot
unfolding upsert_days protected_days delete_generated generated_days generation_end
generate_slots_from_schedule s new_id sch months t =
    let end = generation_end sch months in
    upsert_days s new_id sch (protected_days s sch end t) (generated_days sch months)
      (delete_generated s sch end t)

-- A user as the calendar's services see one.
pub record Member : Type 0 where
  pub id : ℕ
  pub role : Role

abbrev pub is_locking : ScheduleStatus → Bool
is_locking active = true
is_locking pending_approval = true
is_locking _ = false

-- `updateCustodySlotHandover`; `none` where the code returns `null`.
unfoldable pub update_custody_slot_handover :
    (s : Store)
    → s.Table Schedule
    → s.Table Slot
    → ℕ
    → ℕ
    → Option String
    → Option String
    → Member
    → Result (Option Slot × s.Table Slot)
update_custody_slot_handover s schedules slots ws slot_id time location user = do
  throw_if (not (is_parent user.role)) slot_not_allowed
  throw_if
      (is_some (s.find_first (λ sch. sch.workspace_id == ws && is_locking sch.status) schedules))
      schedule_locked
  elim (s.find_first (λ sl. sl.id == slot_id && sl.workspace_id == ws) slots) [
    | none ↦ ok (none, slots)
    | some sl ↦ ok (
      some (record sl { handover_time = time; handover_location = location }),
      s.update_many (λ r. r.id == sl.id)
          (λ r. record r { handover_time = time; handover_location = location }) slots,
    )
  ]
