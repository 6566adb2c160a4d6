-- ===== src/Custody/Schedules/Approval.antt =====
-- How the writes of scheduleActions.js change the number of rows that are active, that wait for an
-- answer, or that their own proposer approved.
use mathlib.Core.List.{Memᴰ}
use coparentes_backend.Common.{
  ℕ, ◌+◌, ◌≤◌, ◌≡◌, ◌≢◌, refl, subst, inl, inr, ◌⊎◌, Bool, true, ◌&&◌, none, some, List, [], ◌∷◌,
  ◌++◌, arith, count, ◌==◌, Bool-cases, if◌then◌else◌,
}
use coparentes_backend.Common.Store.{update_rows}
use coparentes_backend.Custody.Slots.{Schedule, ScheduleStatus, pending_approval, active}
use coparentes_backend.Custody.Schedules.{in_status, same_status, supersede, activate}

abbrev pub IsLive : ScheduleStatus → Type 0
IsLive st = (st ≡ active) ⊎ (st ≡ pending_approval)

pub count_superseded_self :
    (ws : ℕ) (st : ScheduleStatus) (rs : List Schedule)
    → IsLive st
    → count (in_status ws st) (update_rows (in_status ws st) supersede rs) ≡ 0
count_superseded_self ws st [] live = refl
count_superseded_self ws st (r ∷ rs) live = ground (arith, count_superseded_self ws st rs live)

pub count_superseded_le :
    (ws v : ℕ) (st to : ScheduleStatus) (rs : List Schedule)
    → IsLive to
    → count (in_status v to) (update_rows (in_status ws st) supersede rs)
      ≤ count (in_status v to) rs
count_superseded_le ws v st to [] live = omega arith
count_superseded_le ws v st to (r ∷ rs) live =
    ground (arith, count_superseded_le ws v st to rs live)

-- Superseding one row by its id.
pub count_supersede_id :
    (id v : ℕ) (to : ScheduleStatus) (rs : List Schedule)
    → IsLive to
    → count (in_status v to) (update_rows (λ r. r.id == id) supersede rs)
      ≤ count (in_status v to) rs
count_supersede_id id v to [] live = omega arith
count_supersede_id id v to (r ∷ rs) live = ground (arith, count_supersede_id id v to rs live)

abbrev pub of_workspace : ℕ → ℕ → Schedule → Bool
of_workspace id v r = r.id == id && r.workspace_id == v

pub count_activate :
    (id v approver now : ℕ) (rs : List Schedule)
    → count (in_status v active) (update_rows (λ r. r.id == id) (activate approver now) rs)
      ≤ count (in_status v active) rs + count (of_workspace id v) rs
count_activate id v approver now [] = omega arith
count_activate id v approver now (r ∷ rs) = ground (arith, count_activate id v approver now rs)

pub count_activate_pending :
    (id v approver now : ℕ) (rs : List Schedule)
    → count
        (in_status v pending_approval)
        (update_rows (λ r. r.id == id) (activate approver now) rs)
      ≤ count (in_status v pending_approval) rs
count_activate_pending id v approver now [] = omega arith
count_activate_pending id v approver now (r ∷ rs) =
    ground (arith, count_activate_pending id v approver now rs)

pub count_workspaces :
    (id v w : ℕ) (rs : List Schedule)
    → v ≢ w
    → count (of_workspace id v) rs + count (of_workspace id w) rs ≤ count (λ r. r.id == id) rs
count_workspaces id v w [] ne = omega arith
count_workspaces id v w (r ∷ rs) ne = ground (arith, count_workspaces id v w rs ne)

pub count_workspace_le :
    (id v : ℕ) (rs : List Schedule) → count (of_workspace id v) rs ≤ count (λ r. r.id == id) rs
count_workspace_le id v [] = omega arith
count_workspace_le id v (r ∷ rs) = ground (arith, count_workspace_le id v rs)

-- An active schedule that nobody approved, or its own proposer.
abbrev pub is_self_approved : Schedule → Bool
is_self_approved sch =
    same_status sch.status active
    && elim sch.approved_by_id [ none ↦ true | some a ↦ a == sch.proposed_by_id ]

abbrev pub of_proposer : ℕ → ℕ → Schedule → Bool
of_proposer id u r = r.id == id && r.proposed_by_id == u

pub count_proposers :
    (id v w : ℕ) (rs : List Schedule)
    → v ≢ w
    → count (of_proposer id v) rs + count (of_proposer id w) rs ≤ count (λ r. r.id == id) rs
count_proposers id v w [] ne = omega arith
count_proposers id v w (r ∷ rs) ne = ground (arith, count_proposers id v w rs ne)

pub count_self_supersede :
    (p : Schedule → Bool) (rs : List Schedule)
    → count is_self_approved (update_rows p supersede rs) ≤ count is_self_approved rs
count_self_supersede p [] = omega arith
count_self_supersede p (r ∷ rs) = ground (arith, count_self_supersede p rs)

pub count_self_activate :
    (id a now : ℕ) (rs : List Schedule)
    → count is_self_approved (update_rows (λ r. r.id == id) (activate a now) rs)
      ≤ count is_self_approved rs + count (of_proposer id a) rs
count_self_activate id a now [] = omega arith
count_self_activate id a now (r ∷ rs) = ground (arith, count_self_activate id a now rs)

-- A test that a write does not touch counts the same rows after it.
pub count_stable :
    (q p : Schedule → Bool) (f : Schedule → Schedule) (rs : List Schedule)
    → ((r : Schedule) → q (f r) ≡ q r)
    → count q (update_rows p f rs) ≡ count q rs
count_stable q p f [] same = refl
count_stable q p f (r ∷ rs) same = elim (Bool-cases (p r)) [
  | inl e ↦ rw (e, same r, count_stable q p f rs same) refl
  | inr e ↦ rw (e, count_stable q p f rs same) refl
]

pub count_added :
    (q : Schedule → Bool) (rs : List Schedule) (r : Schedule)
    → count q (rs ++ r ∷ []) ≡ count q rs + (if q r then 1 else 0)
count_added q [] r = omega arith
count_added q (x ∷ rs) r = omega (arith, count_added q rs r)

pub count_pos :
    (q : Schedule → Bool) (rs : List Schedule) {r : Schedule}
    → Memᴰ r rs
    → q r ≡ true
    → 1 ≤ count q rs
count_pos q [] m e = elim m [ ]
count_pos q (x ∷ rs) (Memᴰ.head h) e =
    let f : q x ≡ true = subst (λ y. q y ≡ true) h e in rw f (omega arith)
count_pos q (x ∷ rs) (Memᴰ.tail m) e = omega (arith, count_pos q rs m e)
