-- ===== src/Calendar/Swaps.antt =====
-- Requests to swap two custody days. The notice to the messaging thread is left out: the code
-- drops every error of it. New ids are arguments.
use coparentes_backend.Common.{
  ℕ, ◌+◌, Bool, true, false, not, ◌&&◌, Option, none, some, String, ◌==◌, if◌then◌else◌, Result, ok,
  throw_if, ◌>>◌, swap_not_allowed,
}
use coparentes_backend.Common.Store.{Store}
use coparentes_backend.Custody.Dates.{ms_per_day, utc_day_start}
use coparentes_backend.Custody.Pattern.{Role, is_parent, get_custodian_for_date}
use coparentes_backend.Custody.Slots.{Slot, swap, schedule, Schedule, Member, in_range}
use coparentes_backend.Custody.Persistence.{get_active_or_pending_schedule}

-- `SwapStatus`
pub data SwapStatus : Type 0 where
  pending accepted rejected counter_proposed : SwapStatus

abbrev pub is_accepted : SwapStatus → Bool
is_accepted accepted = true
is_accepted _ = false

pub record SwapRequest : Type 0 where
  pub id : ℕ
  pub workspace_id : ℕ
  pub requester_id : ℕ
  pub requester_name : String
  pub original_date : ℕ
  pub proposed_date : ℕ
  pub reason : Option String
  pub status : SwapStatus
  pub response_note : Option String

pub record Db (s : Store) : Type 0 where
  pub schedules : s.Table Schedule
  pub slots : s.Table Slot
  pub swaps : s.Table SwapRequest

-- `where: { workspaceId, date: { gte: start, lt: end } }` with the bounds of `utcDayBounds`.
-- The day is given by its start.
abbrev pub on_day : ℕ → ℕ → Slot → Bool
on_day ws d sl = sl.workspace_id == ws && in_range d (d + ms_per_day) sl.date

-- The row that `ensureCustodySlotForDay` creates.
abbrev pub missing_slot : ℕ → ℕ → ℕ → Schedule → Slot
missing_slot id ws t sch = record {
  id = id;
  workspace_id = ws;
  date = utc_day_start t;
  custodian = get_custodian_for_date sch.pattern_type sch.start_date sch.weeks (utc_day_start t);
  handover_location = sch.handover_location;
  handover_time = sch.handover_time;
  source = schedule;
  schedule_id = some sch.id;
  exception_id = none;
}

-- `update` of a swapped slot.
abbrev pub hand_over : Role → Slot → Slot
hand_over custodian sl = record sl { custodian = custodian; source = swap }

module _ (s : Store) where
  -- `findCustodySlotForDay`
  unfoldable pub find_slot : s.Table Slot → ℕ → ℕ → Option Slot
  find_slot t ws date = s.find_first (on_day ws (utc_day_start date)) t

  -- `ensureCustodySlotForDay` behind its search.
  unfoldable pub ensure_found :
      s.Table Slot → ℕ → ℕ → ℕ → Option Schedule → Option Slot → Option Slot × s.Table Slot
  ensure_found t id ws date sch (some sl) = (some sl, t)
  ensure_found t id ws date none none = (none, t)
  ensure_found t id ws date (some sch) none =
      (some (missing_slot id ws date sch), s.create (missing_slot id ws date sch) t)

  -- `ensureCustodySlotForDay`
  unfoldable pub ensure_slot :
      s.Table Slot → ℕ → ℕ → ℕ → Option Schedule → Option Slot × s.Table Slot
  unfolding ensure_found find_slot
  ensure_slot t id ws date sch = ensure_found t id ws date sch (find_slot t ws date)

  -- The transaction of `applyAcceptedSwapToCalendar`; nothing is written when a slot is missing.
  unfoldable pub exchange : s.Table Slot → Option Slot → Option Slot → s.Table Slot
  exchange t (some a) (some b) =
      s.update_many (λ r. r.id == b.id) (hand_over a.custodian)
        (s.update_many (λ r. r.id == a.id) (hand_over b.custodian) t)
  exchange t _ _ = t

  -- `applyAcceptedSwapToCalendar`; the ids are those of slots that are missing.
  unfoldable pub apply_accepted_swap : Db s → ℕ → ℕ → ℕ → ℕ → ℕ → s.Table Slot
  unfolding ensure_slot exchange get_active_or_pending_schedule
  apply_accepted_swap db id id' ws original proposed =
      let sch = get_active_or_pending_schedule s db.schedules ws in
      let (a, t) = ensure_slot db.slots id ws original sch in
      let (b, t') = ensure_slot t id' ws proposed sch in exchange t' a b

  abbrev pub answer_swap : SwapStatus → Option String → SwapRequest → SwapRequest
  answer_swap status remark r = record r { status = status; response_note = remark }

  -- `respondToSwapRequest` behind its search.
  unfoldable pub swap_found :
      Db s
      → ℕ
      → ℕ
      → ℕ
      → Member
      → SwapStatus
      → Option String
      → Option SwapRequest
      → Result (Option SwapRequest × Db s)
  swap_found db id id' ws responder status remark none = ok (none, db)
  swap_found db id id' ws responder status remark (some r) = do
    throw_if (responder.id == r.requester_id) swap_not_allowed
    throw_if (not (is_parent responder.role)) swap_not_allowed
    ok (
      some (answer_swap status remark r),
      record db {
        slots =
            if is_accepted status
            then apply_accepted_swap db id id' ws r.original_date r.proposed_date
            else db.slots;
        swaps = s.update_many (λ x. x.id == r.id) (answer_swap status remark) db.swaps;
      },
    )

  -- `respondToSwapRequest`; `none` where the code returns `null`.
  unfoldable pub respond_to_swap_request :
      Db s
      → ℕ
      → ℕ
      → ℕ
      → ℕ
      → Member
      → SwapStatus
      → Option String
      → Result (Option SwapRequest × Db s)
  unfolding swap_found
  respond_to_swap_request db id id' ws swap_id responder status remark =
      swap_found db id id' ws responder status remark
        (s.find_first (λ x. x.id == swap_id && x.workspace_id == ws) db.swaps)

  -- `createSwapRequest`
  unfoldable pub create_swap_request :
      Db s → ℕ → ℕ → ℕ → String → ℕ → ℕ → Option String → SwapRequest × Db s
  create_swap_request db id ws requester_id requester_name original proposed reason =
      let row : SwapRequest = record {
        id = id;
        workspace_id = ws;
        requester_id = requester_id;
        requester_name = requester_name;
        original_date = original;
        proposed_date = proposed;
        reason = reason;
        status = pending;
        response_note = none;
      } in
      (row, record db { swaps = s.create row db.swaps })
