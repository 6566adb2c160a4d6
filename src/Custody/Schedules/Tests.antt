-- ===== src/Custody/Schedules/Tests.antt =====
-- A proposal and its answer over a small database kept as lists.
use coparentes_backend.Common.{
  ℕ, ◌+◌, ◌*◌, ◌≡◌, refl, true, none, some, [], ◌∷◌, arith, ok, err, schedule_not_allowed,
}
use coparentes_backend.Common.Store.{list_store}
use coparentes_backend.Custody.Dates.{ms_per_day, utc_day_start}
use coparentes_backend.Custody.Pattern.{parent_a, parent_b, week_alternating}
use coparentes_backend.Custody.Slots.{Schedule, Member}
use coparentes_backend.Custody.Schedules.{
  Db, NewSchedule, proposed, proposal, decide, propose_custody_schedule,
  respond_to_custody_schedule,
}
use coparentes_backend.Custody.Schedules.Safety.{IsValid}
use coparentes_backend.Custody.Schedules.Reach.{start, after, propose, respond, Reach-IsValid}

abbrev mother : Member
mother = record { id = 2; role = parent_a }

abbrev father : Member
father = record { id = 3; role = parent_b }

abbrev first_day : ℕ
first_day = 739250 * ms_per_day

abbrev plan : NewSchedule
plan = record {
  workspace_id = 1;
  pattern_type = week_alternating;
  start_date = first_day + 5000;
  end_date = some (first_day + 2 * ms_per_day);
  week_a = none;
  week_b = none;
  week_interval = none;
  handover_time = some "17:00";
  handover_location = none;
}

abbrev day_id : ℕ → ℕ
day_id d = d

abbrev empty : Db list_store
empty = record { schedules = []; slots = [] }

abbrev waiting : Schedule
waiting = proposal 4 mother plan

abbrev asked : Db list_store
asked = record { schedules = waiting ∷ []; slots = [] }

abbrev answered : Db list_store
answered = (decide list_store day_id 7000 asked 1 father true waiting).2

mother_cannot_answer :
    respond_to_custody_schedule list_store day_id 7000 asked 1 4 mother true
    ≡ err schedule_not_allowed
unfolding respond_to_custody_schedule
mother_cannot_answer = refl

plan_proposed :
    propose_custody_schedule list_store empty 4 mother plan ≡ ok (waiting, proposed 2, asked)
unfolding propose_custody_schedule utc_day_start
plan_proposed = refl

empty-IsValid : IsValid []
empty-IsValid = record {
  unique = λ id. omega arith;
  active_le = λ ws. omega arith;
  pending_le = λ ws. omega arith;
  approved = refl;
}

Reach-IsValid_example : IsValid answered.schedules
unfolding respond_to_custody_schedule
Reach-IsValid_example =
    Reach-IsValid list_store empty answered
      (after (after start (propose 4 mother plan refl plan_proposed))
        (respond day_id 7000 1 4 father true refl))
      empty-IsValid
