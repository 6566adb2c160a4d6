-- ===== src/Custody/Slots/Tests.antt =====
-- Generated slots over a small calendar kept as a list.
use mathlib.Core.List.{Memᴰ}
use coparentes_backend.Common.{ℕ, ◌+◌, ◌*◌, ◌≡◌, refl, none, some, List, [], ◌∷◌, arith, length}
use coparentes_backend.Common.Store.{list_store}
use coparentes_backend.Custody.Dates.{ms_per_day, utc_day_start, add_utc_days}
use coparentes_backend.Custody.Pattern.{parent_b, week_alternating, resolve_week_pattern}
use coparentes_backend.Custody.Slots.{
  Slot, swap, Schedule, active, generation_end, generated_days, days_from, protected_days,
  delete_generated, upsert_days, generate_slots_from_schedule,
}
use coparentes_backend.Custody.Slots.Coverage.{slot_at, Written}
use coparentes_backend.Custody.Slots.Generation.{generate_covers, generate_keeps_protected}

abbrev first_day : ℕ
first_day = 739250 * ms_per_day

abbrev plan : Schedule
plan = record {
  id = 4;
  workspace_id = 1;
  pattern_type = week_alternating;
  start_date = first_day + 5000;
  end_date = some (first_day + 2 * ms_per_day);
  weeks = resolve_week_pattern week_alternating none none none;
  handover_time = some "17:00";
  handover_location = none;
  status = active;
  proposed_by_id = 2;
  approved_by_id = some 3;
  approved_at = some 7000;
}

abbrev swapped : Slot
swapped = record {
  id = 90;
  workspace_id = 1;
  date = first_day + ms_per_day;
  custodian = parent_b;
  handover_location = none;
  handover_time = none;
  source = swap;
  schedule_id = none;
  exception_id = none;
}

abbrev slots : List Slot
slots = swapped ∷ []

abbrev day_id : ℕ → ℕ
day_id d = d

three_days :
    generated_days plan 12
    ≡ first_day ∷ (first_day + ms_per_day) ∷ (first_day + 2 * ms_per_day) ∷ []
unfolding generated_days days_from generation_end utc_day_start add_utc_days
three_days = refl

two_slots_added : length (generate_slots_from_schedule list_store day_id plan 12 slots) ≡ 3
unfolding generate_slots_from_schedule upsert_days protected_days delete_generated generated_days
    days_from generation_end utc_day_start add_utc_days
two_slots_added = refl

generate_covers_example : Written plan (first_day + 2 * ms_per_day) (
    slot_at 1
      (first_day + 2 * ms_per_day)
      (generate_slots_from_schedule list_store day_id plan 12 slots))
unfolding generation_end utc_day_start add_utc_days protected_days
generate_covers_example =
    generate_covers list_store day_id plan 12 (first_day + 2 * ms_per_day) slots (omega arith)
      (omega arith) (omega arith) refl

generate_keeps_protected_example :
    Memᴰ swapped (generate_slots_from_schedule list_store day_id plan 12 slots)
unfolding utc_day_start
generate_keeps_protected_example =
    generate_keeps_protected list_store day_id plan 12 slots swapped (Memᴰ.head refl) refl refl
