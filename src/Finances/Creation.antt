-- ===== src/Finances/Creation.antt =====
-- What `createExpense` writes and returns.
use mathlib.Core.List.{Memᴰ, append-nil, append_assoc}
use coparentes_backend.Common.{
  ℕ, ◌≡◌, refl, ap, sym, subst, ◌∙◌, inl, inr, Bool, true, false, ◌&&◌, Option, none, some, List,
  [], ◌∷◌, ◌++◌, map, arith, All, dedup, ◌==◌, Result, Code, invalid_paid_by, ok, err, or_throw,
  ◌>>=◌, ◌>>◌, ok_injective, Bool-cases, if◌then◌else◌, is_some, filter, ==_iff,
}
use coparentes_backend.Common.Store.{Store, Finds}
use coparentes_backend.Common.Rows.{
  UniqueBy, Finds-added, update_rows_added, filter-append, filter_none,
}
use coparentes_backend.Finances.Children.{child_key, IsChild, assert_children_sound}
use coparentes_backend.Finances.Expenses.{
  pending, Expense, ExpenseChild, ExpenseView, Db, NewExpense, present, serialize_expense, User,
  assert_children_in_workspace,
}
use coparentes_backend.Finances.Create.{
  Outside, check_receipt, new_row, create_links, point_to_receipt, write_expense, record_expense,
  create_expense,
}

abbrev links : ℕ → List ℕ → List ExpenseChild
links id = map (λ ch. record { expense_id = id; child_id = ch })

rows-create_links :
    (s : Store) (id : ℕ) (us : List ℕ) (t : s.Table ExpenseChild)
    → s.rows (create_links s id us t) ≡ s.rows t ++ links id us
unfolding create_links
rows-create_links s id [] t = sym (append-nil _)
rows-create_links s id (u ∷ us) t = rw (rows-create_links s id us _, s.rows-create, append_assoc)

filter-links : (id : ℕ) (us : List ℕ) → filter (λ l. l.expense_id == id) (links id us) ≡ links id us
filter-links id [] = refl
filter-links id (u ∷ us) = rw ((==_iff id id).1 refl, filter-links id us)

map-links : (id : ℕ) (us : List ℕ) → map (λ (l : ExpenseChild). l.child_id) (links id us) ≡ us
map-links id [] = refl
map-links id (u ∷ us) = ap (λ r. u ∷ r) (map-links id us)

-- The parts of a call that returns.
chain_parts :
    {A B C D : Type 0} (u : Option A) (r : Result B) (b : Result C) (k : B → Result D) {d : D}
    (code : Code)
    → (or_throw u code >> (r >>= λ us. b >> k us)) ≡ ok d
    → (a : A) × (us : B) × (u ≡ some a) × (r ≡ ok us) × (k us ≡ ok d)
chain_parts (some a) (ok us) (ok _) k code e = (a, us, refl, refl, e)
chain_parts (some a) (ok us) (err _) k code e = cc
chain_parts (some a) (err _) b k code e = cc
chain_parts none r b k code e = cc

module _ (s : Store) {Amount : Type 0} (o : Outside Amount) where
  -- The row as it stands after the transaction.
  abbrev pub final_row : ℕ → ℕ → NewExpense Amount → List ℕ → Expense Amount
  final_row id now x us =
      if is_some (present x.receipt_content)
      then point_to_receipt id (new_row s o id now x us)
      else new_row s o id now x us

  -- No row refers to the id yet.
  abbrev pub IsFresh : Db s Amount → ℕ → Type 0
  IsFresh db id =
      All (λ e. (e.id == id) ≡ false) (s.rows db.expenses)
      × All (λ l. (l.expense_id == id) ≡ false) (s.rows db.expense_children)

  new_row_id :
      (id now : ℕ) (x : NewExpense Amount) (us : List ℕ)
      → ((new_row s o id now x us).id == id) ≡ true
  unfolding new_row
  new_row_id id now x us = (==_iff id id).1 refl

  -- With or without a receipt the row is a pending one, with the values that were asked.
  final_row_fields :
      (id now : ℕ) (x : NewExpense Amount) (us : List ℕ)
      → let e = final_row id now x us in
        (e.id ≡ id)
        × (e.workspace_id ≡ x.workspace_id)
        × (e.status ≡ pending)
        × (e.amount ≡ o.round_money x.amount)
        × (e.paid_by_id ≡ x.paid_by)
  unfolding new_row
  final_row_fields id now x us = elim (Bool-cases (is_some (present x.receipt_content))) [
    | inl with ↦ rw with (refl, refl, refl, refl, refl)
    | inr without ↦ rw without (refl, refl, refl, refl, refl)
  ]

  rows-write_expense :
      (db : Db s Amount) (id now : ℕ) (x : NewExpense Amount) (us : List ℕ)
      → IsFresh db id
      → s.rows (write_expense s o db id now x us).expenses
        ≡ s.rows db.expenses ++ final_row id now x us ∷ []
  unfolding write_expense
  rows-write_expense db id now x us fresh =
      elim (Bool-cases (is_some (present x.receipt_content))) [
        | inl with ↦
            rw (with, s.rows-update_many, s.rows-create)
              (update_rows_added (λ e. e.id == id) (point_to_receipt id) (s.rows db.expenses)
                (new_row s o id now x us) fresh.0 (new_row_id id now x us))
        | inr without ↦ rw (without, s.rows-create)
      ]

  find-write_expense :
      (db : Db s Amount) (id now : ℕ) (x : NewExpense Amount) (us : List ℕ)
      → IsFresh db id
      → s.find_first (λ e. e.id == id) (write_expense s o db id now x us).expenses
        ≡ some (final_row id now x us)
  find-write_expense db id now x us fresh =
      let after = (write_expense s o db id now x us).expenses in
      Finds-added (λ e. e.id == id) (final_row id now x us) (s.rows db.expenses) _ fresh.0
        ((==_iff _ _).1 (final_row_fields id now x us).0)
        (subst (λ rs. Finds (λ e. e.id == id) rs (s.find_first (λ e. e.id == id) after))
          (rows-write_expense db id now x us fresh) (s.find_first-Finds (λ e. e.id == id) after))

  links-write_expense :
      (db : Db s Amount) (id now : ℕ) (x : NewExpense Amount) (us : List ℕ)
      → IsFresh db id
      → map
          (λ (l : ExpenseChild). l.child_id)
          (s.find_many
            (λ l. l.expense_id == id)
            (write_expense s o db id now x us).expense_children)
        ≡ us
  unfolding write_expense
  links-write_expense db id now x us fresh =
      rw (s.find_many-rows, rows-create_links, filter-append, filter_none _ _ fresh.1, filter-links)
        (map-links id us)

  abbrev payer_test : NewExpense Amount → User → Bool
  payer_test x u = u.id == x.paid_by && u.workspace_id == x.workspace_id

  -- What a call of `createExpense` that returns has checked and done.
  pub record Creates (db : Db s Amount) (id now : ℕ) (x : NewExpense Amount)
      (v : ExpenseView Amount) (db' : Db s Amount) : Type 0 where
    pub payer :
        (u : User) × Memᴰ u (s.rows db.users)
        × (u.id ≡ x.paid_by)
        × (u.workspace_id ≡ x.workspace_id)
    pub of_children : All (IsChild x.workspace_id (s.rows db.children)) (dedup x.child_ids)
    pub rows :
        s.rows db'.expenses ≡ s.rows db.expenses ++ final_row id now x (dedup x.child_ids) ∷ []
    pub is_pending : v.status ≡ pending
    pub rounded : v.amount ≡ o.round_money x.amount
    pub paid : v.paid_by ≡ x.paid_by
    pub children : v.child_ids ≡ dedup x.child_ids

  record_expense_lem :
      (db : Db s Amount) (id now : ℕ) (x : NewExpense Amount) (us : List ℕ)
      → IsFresh db id
      → record_expense s o db id now x us
        ≡ ok (
          serialize_expense s o.cipher (final_row id now x us) (
              s.find_many
                (λ l. l.expense_id == id)
                (write_expense s o db id now x us).expense_children),
          write_expense s o db id now x us,
        )
  unfolding record_expense
  record_expense_lem db id now x us fresh = rw (find-write_expense db id now x us fresh)

  write_expense-Creates :
      (db : Db s Amount) (id now : ℕ) (x : NewExpense Amount) (u : User)
      → IsFresh db id
      → Finds
          (λ u. u.id == x.paid_by && u.workspace_id == x.workspace_id)
          (s.rows db.users)
          (some u)
      → All (IsChild x.workspace_id (s.rows db.children)) (dedup x.child_ids)
      → let us = dedup x.child_ids in
        let after = write_expense s o db id now x us in
        Creates db id now x
          (serialize_expense s o.cipher
            (final_row id now x us)
            (s.find_many (λ l. l.expense_id == id) after.expense_children))
          after
  unfolding serialize_expense
  write_expense-Creates db id now x u fresh found children =
      let (_, _, st, amount, paid) = final_row_fields id now x (dedup x.child_ids) in
      record {
        payer = (u, found.1, ground arith, ground arith);
        of_children = children;
        rows = rows-write_expense db id now x (dedup x.child_ids) fresh;
        is_pending = st;
        rounded = amount;
        paid = paid;
        children = links-write_expense db id now x (dedup x.child_ids) fresh;
      }

  -- A call that returns has found the payer and every listed child in the workspace. It adds one
  -- row, which is pending, for the payer, with the rounded amount, and leaves the others; the view
  -- shows the children once each. The id must be new, and the child ids in the table unique.
  pub create_expense-Creates :
      (db db' : Db s Amount) (id now : ℕ) (x : NewExpense Amount) (v : ExpenseView Amount)
      → IsFresh db id
      → UniqueBy child_key (s.rows db.children)
      → create_expense s o db id now x ≡ ok (v, db')
      → Creates db id now x v db'
  unfolding create_expense
  create_expense-Creates db db' id now x v fresh unique e =
      let (u, us, found, checked, recorded) =
        chain_parts (s.find_first (payer_test x) db.users)
          (assert_children_in_workspace s db x.workspace_id x.child_ids)
          (check_receipt o.decode (present x.receipt_content)) (record_expense s o db id now x)
          invalid_paid_by e in
      let (same, children) =
        assert_children_sound s db x.workspace_id x.child_ids us unique checked in
      let found_u =
        subst (Finds (payer_test x) (s.rows db.users)) found
          (s.find_first-Finds (payer_test x) db.users) in
      let written = sym (record_expense_lem db id now x us fresh) ∙ recorded in
      subst (λ (y : ExpenseView Amount × Db s Amount). Creates db id now x y.0 y.1)
        (ok_injective (rw same at written))
        (write_expense-Creates db id now x u fresh found_u
          (subst (All (IsChild x.workspace_id (s.rows db.children))) same children))
