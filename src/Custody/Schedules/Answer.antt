-- ===== src/Custody/Schedules/Answer.antt =====
-- What an approval does to the database, from the search to the generated slots.
use mathlib.Core.List.{Memᴰ}
use coparentes_backend.Common.{ℕ, ◌≡◌, true, some, ok}
use coparentes_backend.Common.Store.{Store}
use coparentes_backend.Custody.Slots.{Schedule, Member}
use coparentes_backend.Custody.Slots.Coverage.{slot_at, Written}
use coparentes_backend.Custody.Schedules.{Db, accepted, activate, respond_to_custody_schedule}

module _ (s : Store) where
  -- What an approval of `sch` by `u` leaves: the call returns the activated row with the notice, the row is in
  -- the database, and the day `d` has a slot that the row's pattern wrote.
  pub record Activates (new_id : ℕ → ℕ) (now ws id d : ℕ) (db : Db s) (u : Member) (sch : Schedule)
      : Type 0 where
    pub after : Db s
    pub returns :
        respond_to_custody_schedule s new_id now db ws id u true
        ≡ ok (some (activate u.id now sch, accepted u.id), after)
    pub stored : Memᴰ (activate u.id now sch) (s.rows after.schedules)
    pub covered :
        Written (activate u.id now sch) d (slot_at sch.workspace_id d (s.rows after.slots))
