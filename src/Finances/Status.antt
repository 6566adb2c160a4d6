-- ===== src/Finances/Status.antt =====
-- The status of an expense: which changes `updateExpenseStatus` lets through, to whom, and what it
-- writes.
use mathlib.Core.List.{Memᴰ}
use coparentes_backend.Common.{
  ℕ, ◌≡◌, refl, ◌↔◌, ◌⊎◌, inl, inr, ap, sym, subst, Bool, true, false, ◌&&◌, Option, none, some,
  List, [], ◌∷◌, arith, All, ◌==◌, Result, ok, err, forbidden_status_transition,
}
use coparentes_backend.Common.Store.{Store, update_rows}
use coparentes_backend.Crypto.{Cipher}
use coparentes_backend.Finances.Expenses.{
  Status, pending, accepted, disputed, settled, Expense, ExpenseView, Db, NotePatch,
  check_transition, apply_status,
}

-- The other parent accepts or disputes a pending expense; the payer settles an accepted one.
pub data Moves (is_payer : Bool) : Status → Status → Type 0 where
  accept : is_payer ≡ false → Moves is_payer pending accepted
  dispute : is_payer ≡ false → Moves is_payer pending disputed
  settle : is_payer ≡ true → Moves is_payer accepted settled

pub check_transition_sound :
    (from to : Status) (p : Bool) → check_transition from to p ≡ ok tt → Moves p from to
unfolding check_transition
check_transition_sound pending accepted false h = accept refl
check_transition_sound pending disputed false h = dispute refl
check_transition_sound accepted settled true h = settle refl
check_transition_sound _ _ _ h = cc

pub check_transition_complete :
    (from to : Status) (p : Bool) → Moves p from to → check_transition from to p ≡ ok tt
unfolding check_transition
check_transition_complete _ _ p (accept e) = rw e
check_transition_complete _ _ p (dispute e) = rw e
check_transition_complete _ _ p (settle e) = rw e

-- The chain of tests lets through exactly the three changes of `Moves`.
pub check_transition_iff :
    (from to : Status) (p : Bool) → (check_transition from to p ≡ ok tt) ↔ Moves p from to
check_transition_iff from to p =
    (check_transition_sound from to p, check_transition_complete from to p)

check_transition_cases :
    (from to : Status) (p : Bool)
    → (check_transition from to p ≡ ok tt)
      ⊎ (check_transition from to p ≡ err forbidden_status_transition)
unfolding check_transition
check_transition_cases from to p = ground arith

-- The requests made on one expense, each with whether its author is the payer; a refused request
-- leaves the status.
unfoldable pub run_transitions : Status → List (Bool × Status) → Status
unfolding check_transition
run_transitions st [] = st
run_transitions st ((p, to) ∷ rs) =
    run_transitions (elim (check_transition st to p) [ ok _ ↦ to | err _ ↦ st ]) rs

-- What a history of requests must hold, by the status that it leads to.
abbrev Evidence : Status → Status → List (Bool × Status) → Type 0
Evidence pending settled rs = Memᴰ (false, accepted) rs × Memᴰ (true, settled) rs
Evidence pending accepted rs = Memᴰ (false, accepted) rs
Evidence pending disputed rs = Memᴰ (false, disputed) rs
Evidence pending pending rs = Unit
Evidence accepted settled rs = Memᴰ (true, settled) rs
Evidence accepted accepted rs = Unit
Evidence disputed disputed rs = Unit
Evidence settled settled rs = Unit
Evidence _ _ rs = ⊥

Evidence-tail :
    (a b : Status) (r : Bool × Status) (rs : List (Bool × Status))
    → Evidence a b rs
    → Evidence a b (r ∷ rs)
Evidence-tail pending settled r rs h = (Memᴰ.tail h.0, Memᴰ.tail h.1)
Evidence-tail pending accepted r rs h = Memᴰ.tail h
Evidence-tail pending disputed r rs h = Memᴰ.tail h
Evidence-tail pending pending r rs h = tt
Evidence-tail accepted settled r rs h = Memᴰ.tail h
Evidence-tail accepted accepted r rs h = tt
Evidence-tail disputed disputed r rs h = tt
Evidence-tail settled settled r rs h = tt
Evidence-tail _ _ r rs h = absurd h

asked : {p q : Bool} (st : Status) (rs : List (Bool × Status)) → p ≡ q → Memᴰ (q, st) ((p, st) ∷ rs)
asked st rs e = Memᴰ.head (ap (λ x. (x, st)) (sym e))

Evidence-step :
    (p : Bool) (a b d : Status) (rs : List (Bool × Status))
    → Moves p a b
    → Evidence b d rs
    → Evidence a d ((p, b) ∷ rs)
Evidence-step p _ _ accepted rs (accept e) h = asked accepted rs e
Evidence-step p _ _ settled rs (accept e) h = (asked accepted rs e, Memᴰ.tail h)
Evidence-step p _ _ _ rs (accept e) h = absurd h
Evidence-step p _ _ disputed rs (dispute e) h = asked disputed rs e
Evidence-step p _ _ _ rs (dispute e) h = absurd h
Evidence-step p _ _ settled rs (settle e) h = asked settled rs e
Evidence-step p _ _ _ rs (settle e) h = absurd h

Evidence-refl : (st : Status) → Evidence st st []
Evidence-refl pending = tt
Evidence-refl accepted = tt
Evidence-refl disputed = tt
Evidence-refl settled = tt

run_transitions-Evidence :
    (st : Status) (rs : List (Bool × Status)) → Evidence st (run_transitions st rs) rs
unfolding run_transitions
run_transitions-Evidence st [] = Evidence-refl st
run_transitions-Evidence st ((p, to) ∷ rs) = elim (check_transition_cases st to p) [
  | inl e ↦
      rw (e, run_transitions)
        (Evidence-step p st to _ rs (check_transition_sound st to p e)
          (run_transitions-Evidence to rs))
  | inr e ↦ rw (e, run_transitions) (Evidence-tail st _ (p, to) rs (run_transitions-Evidence st rs))
]

-- A pending expense that any requests have brought to settled was accepted by the parent who did
-- not pay, and its settlement was confirmed by the payer.
pub settled_needs_both :
    (rs : List (Bool × Status))
    → run_transitions pending rs ≡ settled
    → Memᴰ (false, accepted) rs × Memᴰ (true, settled) rs
settled_needs_both rs e =
    subst (λ st. Evidence pending st rs) e (run_transitions-Evidence pending rs)

-- No request changes a disputed or a settled expense.
pub terminal_stays :
    (st : Status) (rs : List (Bool × Status))
    → (st ≡ disputed) ⊎ (st ≡ settled)
    → run_transitions st rs ≡ st
unfolding run_transitions
terminal_stays st [] h = refl
terminal_stays disputed ((p, to) ∷ rs) h = terminal_stays disputed rs h
terminal_stays settled ((p, to) ∷ rs) h = terminal_stays settled rs h
terminal_stays pending ((p, to) ∷ rs) h = ground arith
terminal_stays accepted ((p, to) ∷ rs) h = ground arith

module _ (s : Store) (c : Cipher) {Amount : Type 0} where
  -- The expense that a request names, as it stood in the table.
  abbrev pub Listed : Db s Amount → ℕ → ℕ → Expense Amount → Type 0
  Listed db workspace_id expense_id e =
      Memᴰ e (s.rows db.expenses) × (e.id ≡ expense_id) × (e.workspace_id ≡ workspace_id)

  abbrev named : ℕ → ℕ → Expense Amount → Bool
  named workspace_id expense_id e = e.id == expense_id && e.workspace_id == workspace_id

  -- What each ending of `updateExpenseStatus` says. `null`: no such expense in the workspace, and
  -- nothing is written. A view: the expense made a permitted move, and only its status and note
  -- are written. A throw: the expense exists and the move is not permitted.
  abbrev pub Updates :
      Db s Amount
      → ℕ
      → ℕ
      → ℕ
      → Status
      → NotePatch
      → Result (Option (ExpenseView Amount) × Db s Amount)
      → Type 0
  Updates db ws id actor to note (ok (none, db')) =
      All (λ e. named ws id e ≡ false) (s.rows db.expenses) × (db' ≡ db)
  Updates db ws id actor to note (ok (some v, db')) =
      (e : Expense Amount) × Listed db ws id e
      × Moves (actor == e.paid_by_id) e.status to
      × (s.rows db'.expenses
          ≡ update_rows (λ r. r.id == e.id) (apply_status c to note) (s.rows db.expenses))
      × (v.id ≡ id)
      × (v.status ≡ to)
      × (v.amount ≡ e.amount)
      × (v.paid_by ≡ e.paid_by_id)
  Updates db ws id actor to note (err code) =
      (code ≡ forbidden_status_transition)
      × ((e : Expense Amount) × Listed db ws id e × (Moves (actor == e.paid_by_id) e.status to → ⊥))
