-- ===== src/Finances/Create.antt =====
-- `createExpense` and `getExpenseReceipt` of src/services/finances.js. The new id, the time, and the
-- rows that fail to be written are the database's; `decode` is Node's base64 decoding.
use coparentes_backend.Common.{
  ℕ, ◌&&◌, Option, none, some, List, [], ◌∷◌, String, ◌==◌, if◌then◌else◌, Result, ok, or_throw,
  ◌>>=◌, ◌>>◌, invalid_paid_by, record_not_found, is_some,
}
use mathlib.Core.Option
use coparentes_backend.Common.Store.{Store}
use coparentes_backend.Crypto.{Cipher, key_finance, encrypt, encrypt_optional, decrypt_optional}
use coparentes_backend.Finances.Receipts.{validate_receipt}
use coparentes_backend.Finances.Expenses.{
  pending, link, receipt_of, Expense, ExpenseChild, Db, NewExpense, ExpenseView, present, string_or,
  serialize_expense, assert_children_in_workspace,
}

-- What the service takes from outside the repository.
pub record Outside (Amount : Type 0) : Type 0 where
  pub cipher : Cipher
  pub round_money : Amount → Amount
  pub integrity_hash : NewExpense Amount → Amount → List ℕ → ℕ → String
  pub decode : String → List ℕ

-- `if (receiptContentBase64) validateReceiptBase64(receiptContentBase64)`
unfoldable pub check_receipt : (String → List ℕ) → Option String → Result (List ℕ)
unfolding validate_receipt
check_receipt decode none = ok []
check_receipt decode (some content) = validate_receipt (decode content)

-- `expenseChild.createMany`
unfoldable pub create_links : (s : Store) → ℕ → List ℕ → s.Table ExpenseChild → s.Table ExpenseChild
create_links s id [] t = t
create_links s id (ch ∷ chs) t =
    create_links s id chs (s.create (record { expense_id = id; child_id = ch }) t)

abbrev pub point_to_receipt : {Amount : Type 0} → ℕ → Expense Amount → Expense Amount
point_to_receipt id e = record e { receipt_url = some (receipt_of id) }

module _ (s : Store) {Amount : Type 0} (o : Outside Amount) where
  -- The row that the transaction creates.
  unfoldable pub new_row : ℕ → ℕ → NewExpense Amount → List ℕ → Expense Amount
  unfolding encrypt encrypt_optional
  new_row id now x child_ids =
      let content = present x.receipt_content in
      record {
        id = id;
        workspace_id = x.workspace_id;
        title = encrypt_optional o.cipher (some x.title) key_finance;
        amount = o.round_money x.amount;
        currency = string_or x.currency "PLN";
        category = x.category;
        paid_by_id = x.paid_by;
        split_ratio = x.split_ratio;
        date = x.date;
        receipt_url = if is_some content then none else Option.map link x.receipt_url;
        receipt_content = encrypt_optional o.cipher content key_finance;
        receipt_mime_type =
            if is_some content then some (string_or x.receipt_mime_type "image/jpeg") else none;
        status = pending;
        note = encrypt_optional o.cipher x.note key_finance;
        hash = o.integrity_hash x (o.round_money x.amount) child_ids now;
      }

  -- The transaction's writes.
  unfoldable pub write_expense : Db s Amount → ℕ → ℕ → NewExpense Amount → List ℕ → Db s Amount
  unfolding create_links
  write_expense db id now x child_ids =
      let created = s.create (new_row id now x child_ids) db.expenses in
      record db {
        expenses =
            if is_some (present x.receipt_content)
            then s.update_many (λ e. e.id == id) (point_to_receipt id) created
            else created;
        expense_children = create_links s id child_ids db.expense_children;
      }

  -- The transaction, and the view of the row that it reads back.
  unfoldable pub record_expense :
      Db s Amount → ℕ → ℕ → NewExpense Amount → List ℕ → Result (ExpenseView Amount × Db s Amount)
  unfolding write_expense serialize_expense
  record_expense db id now x child_ids =
      let after = write_expense db id now x child_ids in
      or_throw (s.find_first (λ e. e.id == id) after.expenses) record_not_found >>= λ row. ok (
        serialize_expense s o.cipher row
            (s.find_many (λ l. l.expense_id == id) after.expense_children),
        after,
      )

  -- `createExpense`; the new id is the database's.
  unfoldable pub create_expense :
      Db s Amount → ℕ → ℕ → NewExpense Amount → Result (ExpenseView Amount × Db s Amount)
  unfolding assert_children_in_workspace check_receipt record_expense
  create_expense db id now x = do
    or_throw (s.find_first (λ u. u.id == x.paid_by && u.workspace_id == x.workspace_id) db.users)
        invalid_paid_by
    child_ids ← assert_children_in_workspace s db x.workspace_id x.child_ids
    check_receipt o.decode (present x.receipt_content)
    record_expense db id now x child_ids

  -- `getExpenseReceipt`: the content and its MIME type, `none` where there is no receipt, and an
  -- inner `none` where the content does not decrypt and the code throws.
  unfoldable pub get_expense_receipt : Db s Amount → ℕ → ℕ → Option (Option String × String)
  get_expense_receipt db workspace_id expense_id =
      elim (s.find_first (λ e. e.id == expense_id && e.workspace_id == workspace_id) db.expenses) [
        | none ↦ none
        | some row ↦
            Option.map
              (λ content.
                (decrypt_optional o.cipher content, string_or row.receipt_mime_type "image/jpeg"))
              (present row.receipt_content)
      ]
