-- ===== src/Custody/Exceptions/Tests.antt =====
-- An exception of two days over a small database kept as lists.
use coparentes_backend.Common.{
  ℕ, ◌+◌, ◌*◌, ◌≡◌, refl, true, none, some, inr, [], ◌∷◌, arith, err, exception_not_allowed,
  schedule_not_active, length,
}
use coparentes_backend.Common.Store.{list_store}
use coparentes_backend.Custody.Dates.{ms_per_day, utc_day_start}
use coparentes_backend.Custody.Pattern.{parent_a, parent_b}
use coparentes_backend.Custody.Slots.{Member, days_from}
use coparentes_backend.Custody.Exceptions.{
  CustodyException, NewException, Db, request_row, exception_days, apply_accepted_exception,
  upsert_exception, create_custody_exception, respond_to_custody_exception,
}
use coparentes_backend.Custody.Exceptions.Outcome.{Accepts, accept_applies}

abbrev mother : Member
mother = record { id = 2; role = parent_a }

abbrev father : Member
father = record { id = 3; role = parent_b }

abbrev first_day : ℕ
first_day = 739250 * ms_per_day

abbrev weekend : NewException
weekend = record {
  workspace_id = 1;
  from_date = first_day + 5000;
  to_date = some (first_day + ms_per_day);
  custodian = parent_b;
  exception_type = none;
  reason = none;
}

abbrev request : CustodyException
request = request_row 6 mother weekend

abbrev asked : Db list_store
asked = record { schedules = []; exceptions = request ∷ []; slots = [] }

abbrev day_id : ℕ → ℕ
day_id d = d

no_schedule : create_custody_exception list_store asked 7 mother weekend ≡ err schedule_not_active
unfolding create_custody_exception
no_schedule = refl

own_request :
    respond_to_custody_exception list_store day_id asked 1 6 mother true none
    ≡ err exception_not_allowed
unfolding respond_to_custody_exception
own_request = refl

two_days : length (apply_accepted_exception list_store day_id request []) ≡ 2
unfolding apply_accepted_exception upsert_exception exception_days days_from utc_day_start
two_days = refl

accept_applies_example :
    Accepts list_store day_id asked 1 6
      (first_day + ms_per_day)
      1
      (first_day + 2 * ms_per_day)
      father
      none
      request
unfolding utc_day_start
accept_applies_example =
    accept_applies list_store day_id asked 1 6 (first_day + ms_per_day) 1
      (first_day + 2 * ms_per_day) father none request refl refl refl (omega arith) (omega arith)
      (omega arith) (omega arith) (inr (inr (omega arith)))
