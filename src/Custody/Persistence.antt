-- ===== src/Custody/Persistence.antt =====
-- The schedule that the calendar shows (src/services/custody/persistence.js). A search ordered by
-- `createdAt`, latest first, takes the last row: `rows` lists them oldest first.
use coparentes_backend.Common.{ℕ, Option, none, some, List, [], ◌∷◌}
use coparentes_backend.Common.Store.{Store}
use coparentes_backend.Custody.Slots.{Schedule, pending_approval, active}
use coparentes_backend.Custody.Schedules.{in_status}

abbrev pub last {ℓ} : {A : Type ℓ} → List A → Option A
last [] = none
last (x ∷ xs) = elim (last xs) [ none ↦ some x | some y ↦ some y ]

-- `getActiveOrPendingSchedule`
unfoldable pub get_active_or_pending_schedule : (s : Store) → s.Table Schedule → ℕ → Option Schedule
get_active_or_pending_schedule s schedules ws =
    elim (last (s.find_many (in_status ws pending_approval) schedules)) [
      | some sch ↦ some sch
      | none ↦ last (s.find_many (in_status ws active) schedules)
    ]
