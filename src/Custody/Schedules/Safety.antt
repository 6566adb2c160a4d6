-- ===== src/Custody/Schedules/Safety.antt =====
-- What holds of the schedules in the database after any sequence of proposals and answers.
use coparentes_backend.Common.{
  ℕ, ◌≤◌, ◌≡◌, ◌≢◌, refl, subst, inl, inr, Bool, List, [], ◌∷◌, ◌++◌, arith, count, ◌==◌,
  Bool-cases,
}
use coparentes_backend.Common.Store.{update_rows}
use coparentes_backend.Custody.Slots.{Schedule, pending_approval, active, Member}
use coparentes_backend.Custody.Schedules.{NewSchedule, in_status, supersede, activate, proposal}
use coparentes_backend.Custody.Schedules.Approval.{
  of_workspace, of_proposer, is_self_approved, count_superseded_self, count_superseded_le,
  count_supersede_id, count_activate, count_activate_pending, count_workspaces, count_workspace_le,
  count_proposers, count_self_supersede, count_self_activate, count_stable, count_added,
}

-- The rows that a workspace may hold: ids are unique, a workspace has at most one active schedule
-- and at most one that waits for an answer, and no active one lacks the other parent's approval.
pub record IsValid (rs : List Schedule) : Type 0 where
  pub unique : (id : ℕ) → count (λ r. r.id == id) rs ≤ 1
  pub active_le : (ws : ℕ) → count (in_status ws active) rs ≤ 1
  pub pending_le : (ws : ℕ) → count (in_status ws pending_approval) rs ≤ 1
  pub approved : count is_self_approved rs ≡ 0

supersede_keeps :
    (p : Schedule → Bool) (id : ℕ) (rs : List Schedule)
    → count (λ r. r.id == id) (update_rows p supersede rs) ≡ count (λ r. r.id == id) rs
supersede_keeps p id rs = count_stable (λ r. r.id == id) p supersede rs (λ r. refl)

activate_keeps :
    (p : Schedule → Bool) (a now id : ℕ) (rs : List Schedule)
    → count (λ r. r.id == id) (update_rows p (activate a now) rs) ≡ count (λ r. r.id == id) rs
activate_keeps p a now id rs = count_stable (λ r. r.id == id) p (activate a now) rs (λ r. refl)

-- The rows after a proposal.
abbrev pub proposed_rows : ℕ → Member → NewSchedule → List Schedule → List Schedule
proposed_rows id u x rs =
    update_rows (in_status x.workspace_id pending_approval) supersede rs ++ proposal id u x ∷ []

proposed_pending :
    (id v : ℕ) (u : Member) (x : NewSchedule) (rs : List Schedule)
    → IsValid rs
    → count (in_status v pending_approval) (proposed_rows id u x rs) ≤ 1
proposed_pending id v u x rs valid =
    let added =
      count_added (in_status v pending_approval)
        (update_rows (in_status x.workspace_id pending_approval) supersede rs) (proposal id u x) in
    let before = valid.pending_le v in
    elim (Bool-cases (x.workspace_id == v)) [
      | inl e ↦
          let same : x.workspace_id ≡ v = ground (arith, e) in
          let none_left = count_superseded_self x.workspace_id pending_approval rs (inr refl) in
          ground (
            arith,
            added,
            subst
                (λ w.
                  count (in_status w pending_approval)
                    (update_rows (in_status x.workspace_id pending_approval) supersede rs)
                  ≡ 0)
                same none_left,
          )
      | inr e ↦
          let le =
            count_superseded_le x.workspace_id v pending_approval pending_approval rs (inr refl) in
          ground (arith, added, e, le, before)
    ]

pub proposed-IsValid :
    (id : ℕ) (u : Member) (x : NewSchedule) (rs : List Schedule)
    → IsValid rs
    → count (λ r. r.id == id) rs ≡ 0
    → IsValid (proposed_rows id u x rs)
proposed-IsValid id u x rs valid fresh = record {
  unique = λ k.
      let added =
        count_added (λ r. r.id == k)
          (update_rows (in_status x.workspace_id pending_approval) supersede rs)
          (proposal id u x) in
      let kept = supersede_keeps (in_status x.workspace_id pending_approval) k rs in
      let before = valid.unique k in
      elim (Bool-cases (id == k)) [
        | inl e ↦
            let same : id ≡ k = ground (arith, e) in
            ground (arith, added, kept, subst (λ j. count (λ r. r.id == j) rs ≡ 0) same fresh)
        | inr e ↦ ground (arith, added, kept, before, e)
      ];
  active_le = λ v.
      let le = count_superseded_le x.workspace_id v pending_approval active rs (inl refl) in
      let added =
        count_added (in_status v active)
          (update_rows (in_status x.workspace_id pending_approval) supersede rs)
          (proposal id u x) in
      ground (arith, added, le, valid.active_le v);
  pending_le = λ v. proposed_pending id v u x rs valid;
  approved =
      let le = count_self_supersede (in_status x.workspace_id pending_approval) rs in
      let added =
        count_added is_self_approved
          (update_rows (in_status x.workspace_id pending_approval) supersede rs)
          (proposal id u x) in
      ground (arith, added, le, valid.approved);
}

pub rejected-IsValid :
    (id : ℕ) (rs : List Schedule)
    → IsValid rs
    → IsValid (update_rows (λ r. r.id == id) supersede rs)
rejected-IsValid id rs valid = record {
  unique = λ k. omega (arith, supersede_keeps (λ r. r.id == id) k rs, valid.unique k);
  active_le = λ v. omega (arith, count_supersede_id id v active rs (inl refl), valid.active_le v);
  pending_le = λ v.
      omega (arith, count_supersede_id id v pending_approval rs (inr refl), valid.pending_le v);
  approved = omega (arith, count_self_supersede (λ r. r.id == id) rs, valid.approved);
}

-- The rows after an approval.
abbrev pub approved_rows : ℕ → ℕ → ℕ → ℕ → List Schedule → List Schedule
approved_rows ws id a now rs =
    update_rows (λ r. r.id == id) (activate a now) (update_rows (in_status ws active) supersede rs)

approved_active :
    (ws id a now v : ℕ) (rs : List Schedule)
    → IsValid rs
    → 1 ≤ count (of_workspace id ws) rs
    → count (in_status v active) (approved_rows ws id a now rs) ≤ 1
approved_active ws id a now v rs valid found =
    let mid = update_rows (in_status ws active) supersede rs in
    let le = count_activate id v a now mid in
    let kept = count_stable (of_workspace id v) (in_status ws active) supersede rs (λ r. refl) in
    let one = valid.unique id in
    elim (Bool-cases (v == ws)) [
      | inl e ↦
          let same : ws ≡ v = ground (arith, e) in
          let none_left =
            subst (λ w. count (in_status w active) mid ≡ 0) same
              (count_superseded_self ws active rs (inl refl)) in
          omega (arith, le, kept, one, none_left, count_workspace_le id v rs)
      | inr e ↦
          let ne : v ≢ ws = ground (arith, e) in
          omega (
            arith,
            le,
            kept,
            one,
            found,
            count_workspaces id v ws rs ne,
            count_superseded_le ws v active active rs (inl refl),
            valid.active_le v,
          )
    ]

pub approved-IsValid :
    (ws id a now p : ℕ) (rs : List Schedule)
    → IsValid rs
    → 1 ≤ count (of_workspace id ws) rs
    → 1 ≤ count (of_proposer id p) rs
    → a ≢ p
    → IsValid (approved_rows ws id a now rs)
approved-IsValid ws id a now p rs valid found proposer ne =
    let mid = update_rows (in_status ws active) supersede rs in
    record {
      unique = λ k. omega (
        arith,
        activate_keeps (λ r. r.id == id) a now k mid,
        supersede_keeps (in_status ws active) k rs,
        valid.unique k,
      );
      active_le = λ v. approved_active ws id a now v rs valid found;
      pending_le = λ v. omega (
        arith,
        count_activate_pending id v a now mid,
        count_superseded_le ws v active pending_approval rs (inr refl),
        valid.pending_le v,
      );
      approved = omega (
        arith,
        count_self_activate id a now mid,
        count_self_supersede (in_status ws active) rs,
        count_stable (of_proposer id a) (in_status ws active) supersede rs (λ r. refl),
        count_proposers id a p rs ne,
        valid.unique id,
        proposer,
        valid.approved,
      );
    }
