-- ===== src/Custody/Schedules/Reach.antt =====
-- Sequences of proposals and answers, as the handlers of scheduleActions.js make them, and what
-- they keep.
use mathlib.Core.List.{Memᴰ}
use coparentes_backend.Common.{
  ℕ, ◌≡◌, ◌≢◌, refl, ap, sym, subst, inl, inr, Bool, true, false, ◌&&◌, Option, none, some, arith,
  count, ◌==◌, ok, Bool-cases, ok_injective,
}
use coparentes_backend.Common.Store.{Store, Finds}
use coparentes_backend.Custody.Pattern.{is_parent}
use coparentes_backend.Custody.Slots.{Schedule, pending_approval, Member}
use coparentes_backend.Custody.Schedules.{
  Db, Notice, NewSchedule, same_status, ends_early, propose_custody_schedule, decide, respond_found,
  respond_to_custody_schedule,
}
use coparentes_backend.Custody.Dates.{utc_day_start}
use mathlib.Core.Option
use coparentes_backend.Custody.Schedules.Approval.{of_workspace, of_proposer, count_pos}
use coparentes_backend.Custody.Schedules.Safety.{
  IsValid, proposed_rows, proposed-IsValid, rejected-IsValid, approved-IsValid,
}

module _ (s : Store) where
  -- One call of a handler that returned; a new row's id is not in use.
  pub data Step : Db s → Db s → Type 0 where
    propose :
        {db db' : Db s} (id : ℕ) (u : Member) (x : NewSchedule) {r : Schedule × Notice}
        → count (λ r. r.id == id) (s.rows db.schedules) ≡ 0
        → propose_custody_schedule s db id u x ≡ ok (r.0, r.1, db')
        → Step db db'
    respond :
        {db db' : Db s} (new_id : ℕ → ℕ) (now ws id : ℕ) (u : Member) (approve : Bool)
        {r : Option (Schedule × Notice)}
        → respond_to_custody_schedule s new_id now db ws id u approve ≡ ok (r, db')
        → Step db db'

  pub data Reach : Db s → Db s → Type 0 where
    start : {db : Db s} → Reach db db
    after : {db mid last : Db s} → Reach db mid → Step mid last → Reach db last

  propose-rows :
      (db db' : Db s) (id : ℕ) (u : Member) (x : NewSchedule) {r : Schedule × Notice}
      → propose_custody_schedule s db id u x ≡ ok (r.0, r.1, db')
      → s.rows db'.schedules ≡ proposed_rows id u x (s.rows db.schedules)
  unfolding propose_custody_schedule
  propose-rows db db' id u x h = elim (Bool-cases (is_parent u.role)) [
    | inl role ↦
        elim (Bool-cases
          (ends_early (Option.map utc_day_start x.end_date) (utc_day_start x.start_date))) [
            | inl early ↦ absurd (cc (rw (role, early) at h))
            | inr late ↦
                let e = ok_injective (rw (role, late) at h) in
                rw (sym (ap (λ t. t.2) e), s.rows-create, s.rows-update_many) refl
          ]
    | inr role ↦ absurd (cc (rw role at h))
  ]

  decide-IsValid :
      (db : Db s) (new_id : ℕ → ℕ) (now ws : ℕ) (u : Member) (approve : Bool) (sch : Schedule)
      → IsValid (s.rows db.schedules)
      → Memᴰ sch (s.rows db.schedules)
      → sch.workspace_id ≡ ws
      → u.id ≢ sch.proposed_by_id
      → IsValid (s.rows (decide s new_id now db ws u approve sch).2.schedules)
  unfolding decide
  decide-IsValid db new_id now ws u false sch valid m own ne =
      rw s.rows-update_many (rejected-IsValid sch.id (s.rows db.schedules) valid)
  decide-IsValid db new_id now ws u true sch valid m own ne =
      rw (s.rows-update_many, s.rows-update_many)
        (approved-IsValid ws sch.id u.id now sch.proposed_by_id (s.rows db.schedules) valid
          (count_pos (of_workspace sch.id ws) _ m (ground (arith, own)))
          (count_pos (of_proposer sch.id sch.proposed_by_id) _ m (ground arith)) ne)

  respond-IsValid :
      (db db' : Db s) (new_id : ℕ → ℕ) (now ws id : ℕ) (u : Member) (approve : Bool)
      (o : Option Schedule) {r : Option (Schedule × Notice)}
      → IsValid (s.rows db.schedules)
      → Finds (λ sch. sch.id == id && sch.workspace_id == ws) (s.rows db.schedules) o
      → respond_found s new_id now db ws u approve o ≡ ok (r, db')
      → IsValid (s.rows db'.schedules)
  unfolding respond_found
  respond-IsValid db db' new_id now ws id u approve none valid found h =
      subst (λ (d : Db s). IsValid (s.rows d.schedules)) (ap (λ t. t.1) (ok_injective h)) valid
  respond-IsValid db db' new_id now ws id u approve (some sch) valid found h =
      elim (Bool-cases (same_status sch.status pending_approval)) [
        | inr other ↦ absurd (cc (rw other at h))
        | inl waits ↦ elim (Bool-cases (u.id == sch.proposed_by_id)) [
          | inl own ↦ absurd (cc (rw (waits, own) at h))
          | inr ne ↦ elim (Bool-cases (is_parent u.role)) [
            | inr role ↦ absurd (cc (rw (waits, ne, role) at h))
            | inl role ↦
                let e = ok_injective (rw (waits, ne, role) at h) in
                subst (λ (d : Db s). IsValid (s.rows d.schedules)) (ap (λ t. t.1) e)
                  (decide-IsValid db new_id now ws u approve sch valid found.1
                    (ground (arith, found.0)) (ground (arith, ne)))
          ]
        ]
      ]

  Step-IsValid :
      (db db' : Db s) → Step db db' → IsValid (s.rows db.schedules) → IsValid (s.rows db'.schedules)
  unfolding respond_to_custody_schedule
  Step-IsValid db db' (propose id u x fresh h) valid =
      rw (propose-rows db db' id u x h) (proposed-IsValid id u x (s.rows db.schedules) valid fresh)
  Step-IsValid db db' (respond new_id now ws id u approve h) valid =
      respond-IsValid db db' new_id now ws id u approve _ valid (s.find_first-Finds _ db.schedules)
        h

  -- From schedules that meet the invariant, every sequence of returned calls of
  -- `proposeCustodySchedule` (each with an id that is not in use) and `respondToCustodySchedule`
  -- leads to schedules that meet it: ids are unique, every workspace has at most one active schedule
  -- and at most one that waits for an answer, and every active schedule was approved by a user other
  -- than the one who proposed it.
  pub Reach-IsValid :
      (db db' : Db s)
      → Reach db db'
      → IsValid (s.rows db.schedules)
      → IsValid (s.rows db'.schedules)
  Reach-IsValid db db' start valid = valid
  Reach-IsValid db db' (after {mid = mid} before step) valid =
      Step-IsValid mid db' step (Reach-IsValid db mid before valid)
