-- ===== src/Custody/Exceptions.antt =====
-- Exceptions to the custody calendar (exceptionActions.js). A new row's id is an argument.
pub mod Applied
pub mod Outcome
mod Tests
use coparentes_backend.Common.{
  ℕ, zero, suc, ◌+◌, ◌-◌, ◌/◌, ◌≡◌, Bool, true, false, not, ◌&&◌, Option, none, some, List, [], ◌∷◌,
  String, ◌==◌, ltb, is_some, if◌then◌else◌, Result, ok, err, throw_if, ◌>>=◌, ◌>>◌,
  exception_not_allowed, exception_not_pending, schedule_not_active, invalid_date_range,
}
use mathlib.Core.Option
use coparentes_backend.Common.Store.{Store}
use coparentes_backend.Custody.Dates.{ms_per_day, utc_day_start}
use coparentes_backend.Custody.Pattern.{Role, is_parent}
use coparentes_backend.Custody.Slots.{Slot, exception, Schedule, active, Member, at_day, days_from}
use coparentes_backend.Custody.Schedules.{in_status}

-- `CustodyExceptionType`
pub data ExceptionType : Type 0 where
  single_day range holiday : ExceptionType

-- `CustodyExceptionStatus`
pub data ExceptionStatus : Type 0 where
  pending accepted rejected : ExceptionStatus

abbrev pub is_pending : ExceptionStatus → Bool
is_pending pending = true
is_pending _ = false

pub record CustodyException : Type 0 where
  pub id : ℕ
  pub workspace_id : ℕ
  pub from_date : ℕ
  pub to_date : ℕ
  pub custodian : Role
  pub exception_type : ExceptionType
  pub reason : Option String
  pub status : ExceptionStatus
  pub response_note : Option String
  pub requester_id : ℕ

pub record NewException : Type 0 where
  pub workspace_id : ℕ
  pub from_date : ℕ
  pub to_date : Option ℕ
  pub custodian : Role
  pub exception_type : Option ExceptionType
  pub reason : Option String

pub record Db (s : Store) : Type 0 where
  pub schedules : s.Table Schedule
  pub exceptions : s.Table CustodyException
  pub slots : s.Table Slot

-- `create` and `update` of an accepted exception's `upsert`.
abbrev pub exception_slot : (ℕ → ℕ) → CustodyException → ℕ → Slot
exception_slot new_id e d = record {
  id = new_id d;
  workspace_id = e.workspace_id;
  date = d;
  custodian = e.custodian;
  handover_location = none;
  handover_time = none;
  source = exception;
  schedule_id = none;
  exception_id = some e.id;
}

abbrev pub write_exception : CustodyException → Slot → Slot
write_exception e sl = record sl {
  custodian = e.custodian;
  source = exception;
  exception_id = some e.id;
}

unfoldable pub upsert_exception :
    (s : Store) → (ℕ → ℕ) → CustodyException → List ℕ → s.Table Slot → s.Table Slot
upsert_exception s new_id e [] t = t
upsert_exception s new_id e (d ∷ ds) t =
    upsert_exception s new_id e ds
      (s.upsert (at_day e.workspace_id d) (write_exception e) (exception_slot new_id e d) t)

-- The rounds of `for (cursor = start; cursor <= end; cursor += 1 day)`: both ends are day starts.
unfoldable pub exception_days : CustodyException → List ℕ
exception_days e =
    let start = utc_day_start e.from_date in
    let end = utc_day_start e.to_date in
    if ltb end start then [] else days_from start (suc ((end - start) / ms_per_day))

-- `applyAcceptedException`
unfoldable pub apply_accepted_exception :
    (s : Store) → (ℕ → ℕ) → CustodyException → s.Table Slot → s.Table Slot
apply_accepted_exception s new_id e = upsert_exception s new_id e (exception_days e)

-- `exceptionType ?? (from === to ? 'singleDay' : 'range')`
abbrev pub type_or : Option ExceptionType → ℕ → ℕ → ExceptionType
type_or (some t) from to = t
type_or none from to = if from == to then single_day else range

-- `toDate ?? fromDate`
abbrev pub last_date : NewException → ℕ
last_date x = elim x.to_date [ some d ↦ d | none ↦ x.from_date ]

-- The row of a request.
abbrev pub request_row : ℕ → Member → NewException → CustodyException
request_row id requester x =
    let from = utc_day_start x.from_date in
    let to = utc_day_start (last_date x) in
    record {
      id = id;
      workspace_id = x.workspace_id;
      from_date = from;
      to_date = to;
      custodian = x.custodian;
      exception_type = type_or x.exception_type from to;
      reason = x.reason;
      status = pending;
      response_note = none;
      requester_id = requester.id;
    }

module _ (s : Store) where
  -- `createCustodyException`
  unfoldable pub create_custody_exception :
      Db s → ℕ → Member → NewException → Result (CustodyException × Db s)
  create_custody_exception db id requester x = do
    throw_if (not (is_parent requester.role)) exception_not_allowed
    throw_if (not (is_some (s.find_first (in_status x.workspace_id active) db.schedules)))
        schedule_not_active
    throw_if (ltb (utc_day_start (last_date x)) (utc_day_start x.from_date)) invalid_date_range
    let row = request_row id requester x
    ok (row, record db { exceptions = s.create row db.exceptions })

  abbrev pub answer : Bool → Option String → CustodyException → CustodyException
  answer approve remark e = record e {
    status = if approve then accepted else rejected;
    response_note = remark;
  }

  -- `respondToCustodyException` behind its search.
  unfoldable pub answer_found :
      (ℕ → ℕ)
      → Db s
      → Member
      → Bool
      → Option String
      → Option CustodyException
      → Result (Option CustodyException × Db s)
  answer_found new_id db responder approve remark none = ok (none, db)
  answer_found new_id db responder approve remark (some e) = do
    throw_if (not (is_pending e.status)) exception_not_pending
    throw_if (responder.id == e.requester_id) exception_not_allowed
    throw_if (not (is_parent responder.role)) exception_not_allowed
    let updated = answer approve remark e
    let slots = if approve then apply_accepted_exception s new_id updated db.slots else db.slots
    ok (
      some updated,
      record db {
        exceptions = s.update_many (λ r. r.id == e.id) (answer approve remark) db.exceptions;
        slots = slots;
      },
    )

  -- `respondToCustodyException`; `none` where the code returns `null`.
  unfoldable pub respond_to_custody_exception :
      (ℕ → ℕ)
      → Db s
      → ℕ
      → ℕ
      → Member
      → Bool
      → Option String
      → Result (Option CustodyException × Db s)
  unfolding answer_found
  respond_to_custody_exception new_id db ws exception_id responder approve remark =
      answer_found new_id db responder approve remark
        (s.find_first (λ e. e.id == exception_id && e.workspace_id == ws) db.exceptions)
