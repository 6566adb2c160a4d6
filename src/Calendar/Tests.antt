-- ===== src/Calendar/Tests.antt =====
-- Swaps and events over a small database kept as lists.
use coparentes_backend.Common.{
  ℕ, ◌+◌, ◌*◌, ◌≡◌, refl, none, some, [], ◌∷◌, arith, err, swap_not_allowed, forbidden,
}
use coparentes_backend.Common.Store.{list_store}
use coparentes_backend.Crypto.Sample.{toy_cipher}
use coparentes_backend.Custody.Dates.{ms_per_day, utc_day_start}
use coparentes_backend.Custody.Pattern.{parent_a, parent_b}
use coparentes_backend.Custody.Slots.{Slot, schedule, Member}
use coparentes_backend.Custody.Persistence.{get_active_or_pending_schedule}
use coparentes_backend.Calendar.Swaps.{
  Db, SwapRequest, pending, accepted, respond_to_swap_request, apply_accepted_swap, answer_swap,
}
use coparentes_backend.Calendar.Exchange.{IsCalendar}
use coparentes_backend.Calendar.Transposition.{
  Exchanges, accept-Exchanges, Undoes, accept_twice-Undoes,
}
use coparentes_backend.Calendar.Events.{CalendarEvent, EventDb, school, delete_calendar_event}

abbrev mother : Member
mother = record { id = 2; role = parent_a }

abbrev father : Member
father = record { id = 3; role = parent_b }

abbrev day_one : ℕ
day_one = 739250 * ms_per_day

abbrev slot_one : Slot
slot_one = record {
  id = 1;
  workspace_id = 1;
  date = day_one;
  custodian = parent_a;
  handover_location = none;
  handover_time = none;
  source = schedule;
  schedule_id = none;
  exception_id = none;
}

abbrev slot_two : Slot
slot_two = record slot_one { id = 2; date = day_one + ms_per_day; custodian = parent_b }

abbrev request : SwapRequest
request = record {
  id = 7;
  workspace_id = 1;
  requester_id = 2;
  requester_name = "Anna";
  original_date = day_one + 5;
  proposed_date = day_one + ms_per_day;
  reason = none;
  status = pending;
  response_note = none;
}

abbrev db : Db list_store
db = record { schedules = []; slots = slot_one ∷ slot_two ∷ []; swaps = request ∷ [] }

abbrev db_swapped : Db list_store
db_swapped = record {
  schedules = [];
  slots = apply_accepted_swap list_store db 8 9 1 request.original_date request.proposed_date;
  swaps = answer_swap list_store accepted none request ∷ [];
}

own_request :
    respond_to_swap_request list_store db 8 9 1 7 mother accepted none ≡ err swap_not_allowed
unfolding respond_to_swap_request
own_request = refl

slots-IsCalendar : IsCalendar 1 (slot_one ∷ slot_two ∷ [])
slots-IsCalendar = record { ids = λ k. ground arith; days = λ d whole. ground arith }

accept-Exchanges_example : Exchanges list_store 1 db 8 9 7 father none request
accept-Exchanges_example =
    accept-Exchanges list_store 1 db 8 9 7 father none request refl refl (omega arith)
      slots-IsCalendar (omega arith) (omega arith) (omega arith)

accept_twice-Undoes_example : Undoes list_store 1 db db_swapped 8 9 7 father none request
unfolding respond_to_swap_request apply_accepted_swap utc_day_start get_active_or_pending_schedule
accept_twice-Undoes_example =
    accept_twice-Undoes list_store 1 db db_swapped 8 9 8 9 7 father none request (omega arith) refl
      refl (omega arith) slots-IsCalendar (omega arith) (omega arith) (omega arith) refl
      (omega arith) (omega arith) (omega arith)

abbrev meeting : CalendarEvent
meeting = record {
  id = 5;
  workspace_id = 1;
  created_by_id = 2;
  title = some "Meeting";
  description = none;
  start_date = day_one;
  end_date = none;
  event_type = school;
  child_id = none;
  location = none;
  deleted_at = none;
}

abbrev events : EventDb list_store
events = record { children = []; events = meeting ∷ [] }

others_event : delete_calendar_event list_store toy_cipher events 6000 1 5 3 ≡ err forbidden
unfolding delete_calendar_event
others_event = refl
