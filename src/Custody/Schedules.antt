-- ===== src/Custody/Schedules.antt =====
-- Proposing a schedule and answering the proposal (scheduleActions.js, persistence.js). `new Date()`
-- and the new row's id are arguments.
pub mod Approval
pub mod Safety
pub mod Reach
pub mod Answer
mod Tests
use coparentes_backend.Common.{
  ℕ, ◌≡◌, Bool, true, false, not, ◌&&◌, Option, none, some, String, ◌==◌, ltb, if◌then◌else◌,
  Result, ok, err, throw_if, ◌>>=◌, ◌>>◌, schedule_not_allowed, invalid_date_range,
  schedule_not_pending,
}
use mathlib.Core.Option
use coparentes_backend.Common.Store.{Store}
use coparentes_backend.Custody.Dates.{utc_day_start}
use coparentes_backend.Custody.Pattern.{is_parent, PatternType, Days, resolve_week_pattern}
use coparentes_backend.Custody.Slots.{
  Slot, Schedule, ScheduleStatus, draft, pending_approval, active, superseded, Member,
  generation_months, generate_slots_from_schedule,
}

-- The call of `notifyScheduleThread` that a handler makes, with its sender.
pub data Notice : Type 0 where
  proposed rejected accepted : ℕ → Notice

pub record NewSchedule : Type 0 where
  pub workspace_id : ℕ
  pub pattern_type : PatternType
  pub start_date : ℕ
  pub end_date : Option ℕ
  pub week_a : Option Days
  pub week_b : Option Days
  pub week_interval : Option ℕ
  pub handover_time : Option String
  pub handover_location : Option String

pub record Db (s : Store) : Type 0 where
  pub schedules : s.Table Schedule
  pub slots : s.Table Slot

abbrev pub same_status : ScheduleStatus → ScheduleStatus → Bool
same_status draft draft = true
same_status pending_approval pending_approval = true
same_status active active = true
same_status superseded superseded = true
same_status _ _ = false

-- `where: { workspaceId, status }`
abbrev pub in_status : ℕ → ScheduleStatus → Schedule → Bool
in_status ws st sch = sch.workspace_id == ws && same_status sch.status st

abbrev pub supersede : Schedule → Schedule
supersede sch = record sch { status = superseded }

abbrev pub activate : ℕ → ℕ → Schedule → Schedule
activate approver now sch = record sch {
  status = active;
  approved_by_id = some approver;
  approved_at = some now;
}

-- `normalizedEnd && normalizedEnd < normalizedStart`
abbrev pub ends_early : Option ℕ → ℕ → Bool
ends_early none start = false
ends_early (some end) start = ltb end start

-- The row of a proposal.
abbrev pub proposal : ℕ → Member → NewSchedule → Schedule
proposal id proposer x = record {
  id = id;
  workspace_id = x.workspace_id;
  pattern_type = x.pattern_type;
  start_date = utc_day_start x.start_date;
  end_date = Option.map utc_day_start x.end_date;
  weeks = resolve_week_pattern x.pattern_type x.week_a x.week_b x.week_interval;
  handover_time = x.handover_time;
  handover_location = x.handover_location;
  status = pending_approval;
  proposed_by_id = proposer.id;
  approved_by_id = none;
  approved_at = none;
}

module _ (s : Store) where
  -- `proposeCustodySchedule`
  unfoldable pub propose_custody_schedule :
      Db s → ℕ → Member → NewSchedule → Result (Schedule × Notice × Db s)
  propose_custody_schedule db id proposer x = do
    throw_if (not (is_parent proposer.role)) schedule_not_allowed
    throw_if (ends_early (Option.map utc_day_start x.end_date) (utc_day_start x.start_date))
        invalid_date_range
    let row = proposal id proposer x
    ok (
      row,
      proposed proposer.id,
      record db {
        schedules =
            s.create row
              (s.update_many (in_status x.workspace_id pending_approval) supersede db.schedules);
      },
    )

  -- The writes of an answer to a pending proposal.
  unfoldable pub decide :
      (ℕ → ℕ) → ℕ → Db s → ℕ → Member → Bool → Schedule → Schedule × Notice × Db s
  decide new_id now db ws responder false sch = (
    supersede sch,
    rejected responder.id,
    record db { schedules = s.update_many (λ r. r.id == sch.id) supersede db.schedules },
  )
  decide new_id now db ws responder true sch =
      let row = activate responder.id now sch in
      (
        row,
        accepted responder.id,
        record db {
          schedules =
              s.update_many (λ r. r.id == sch.id) (activate responder.id now)
                (s.update_many (in_status ws active) supersede db.schedules);
          slots = generate_slots_from_schedule s new_id row generation_months db.slots;
        },
      )

  -- `respondToCustodySchedule` behind its search.
  unfoldable pub respond_found :
      (ℕ → ℕ)
      → ℕ
      → Db s
      → ℕ
      → Member
      → Bool
      → Option Schedule
      → Result (Option (Schedule × Notice) × Db s)
  unfolding decide
  respond_found new_id now db ws responder approve none = ok (none, db)
  respond_found new_id now db ws responder approve (some sch) = do
    throw_if (not (same_status sch.status pending_approval)) schedule_not_pending
    throw_if (responder.id == sch.proposed_by_id) schedule_not_allowed
    throw_if (not (is_parent responder.role)) schedule_not_allowed
    let r = decide new_id now db ws responder approve sch
    ok (some (r.0, r.1), r.2)

  -- `respondToCustodySchedule`; `none` where the code returns `null`.
  unfoldable pub respond_to_custody_schedule :
      (ℕ → ℕ) → ℕ → Db s → ℕ → ℕ → Member → Bool → Result (Option (Schedule × Notice) × Db s)
  unfolding respond_found
  respond_to_custody_schedule new_id now db ws schedule_id responder approve =
      respond_found new_id now db ws responder approve
        (s.find_first (λ sch. sch.id == schedule_id && sch.workspace_id == ws) db.schedules)
