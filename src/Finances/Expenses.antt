-- ===== src/Finances/Expenses.antt =====
-- The expense rows and the operations of src/services/finances.js.
use coparentes_backend.Common.{
  ℕ, Bool, not, ◌&&◌, Option, none, some, List, [], map, String, str_eq, length, dedup, mem_id,
  ◌==◌, leb, is_some, if◌then◌else◌, Result, ok, err, throw_if, ◌>>◌, forbidden_status_transition,
  child_not_found,
}
use coparentes_backend.Common.Store.{Store}
use coparentes_backend.Crypto.{Cipher, key_finance, encrypt_optional, decrypt_optional_safe}

pub data Status : Type 0 where
  pending accepted disputed settled : Status

-- A link that the client sent, or `finances/expenses/<id>/receipt`.
pub data ReceiptUrl : Type 0 where
  link : String → ReceiptUrl
  receipt_of : ℕ → ReceiptUrl

pub record Expense (Amount : Type 0) : Type 0 where
  pub id : ℕ
  pub workspace_id : ℕ
  pub title : Option String
  pub amount : Amount
  pub currency : String
  pub category : String
  pub paid_by_id : ℕ
  pub split_ratio : Amount
  pub date : ℕ
  pub receipt_url : Option ReceiptUrl
  pub receipt_content : Option String
  pub receipt_mime_type : Option String
  pub status : Status
  pub note : Option String
  pub hash : String

pub record ExpenseChild : Type 0 where
  pub expense_id : ℕ
  pub child_id : ℕ

-- What the service reads of a user and of a child.
pub record User : Type 0 where
  pub id : ℕ
  pub workspace_id : ℕ

pub record Child : Type 0 where
  pub id : ℕ
  pub workspace_id : ℕ

pub record Db (s : Store) (Amount : Type 0) : Type 0 where
  pub users : s.Table User
  pub children : s.Table Child
  pub expenses : s.Table (Expense Amount)
  pub expense_children : s.Table ExpenseChild

pub record NewExpense (Amount : Type 0) : Type 0 where
  pub workspace_id : ℕ
  pub title : String
  pub amount : Amount
  pub currency : Option String
  pub category : String
  pub child_ids : List ℕ
  pub paid_by : ℕ
  pub split_ratio : Amount
  pub date : ℕ
  pub receipt_url : Option String
  pub receipt_content : Option String
  pub receipt_mime_type : Option String
  pub note : Option String

-- What `serializeExpense` returns.
pub record ExpenseView (Amount : Type 0) : Type 0 where
  pub id : ℕ
  pub title : Option String
  pub amount : Amount
  pub currency : String
  pub category : String
  pub child_ids : List ℕ
  pub paid_by : ℕ
  pub split_ratio : Amount
  pub date : ℕ
  pub receipt_url : Option ReceiptUrl
  pub has_receipt : Bool
  pub status : Status
  pub note : Option String
  pub hash : String

-- The parameter `note` of a status update: absent, or a text or `null` to store.
pub data NotePatch : Type 0 where
  keep : NotePatch
  put : Option String → NotePatch

-- A JavaScript text as a condition.
abbrev pub present : Option String → Option String
present none = none
present (some t) = if str_eq t "" then none else some t

abbrev pub string_or : Option String → String → String
string_or none d = d
string_or (some t) d = t

-- The transitions of `updateExpenseStatus`, in the order of its tests.
unfoldable pub check_transition : Status → Status → Bool → Result (Unit {0})
check_transition disputed to is_payer = err forbidden_status_transition
check_transition settled to is_payer = err forbidden_status_transition
check_transition pending accepted is_payer = throw_if is_payer forbidden_status_transition
check_transition pending disputed is_payer = throw_if is_payer forbidden_status_transition
check_transition accepted settled is_payer = throw_if (not is_payer) forbidden_status_transition
check_transition from to is_payer = err forbidden_status_transition

-- The tests of `assertChildrenInWorkspace` on the number of rows that were found.
unfoldable pub same_count : List ℕ → ℕ → Result (List ℕ)
same_count unique_ids n =
    if length unique_ids == 0
    then ok []
    else if n == length unique_ids
    then ok unique_ids
    else err child_not_found

-- `assertChildrenInWorkspace`. The search is made also for no id, where its rows are not read.
unfoldable pub assert_children_in_workspace :
    (s : Store) {Amount : Type 0} → Db s Amount → ℕ → List ℕ → Result (List ℕ)
unfolding same_count
assert_children_in_workspace s db workspace_id child_ids =
    let unique_ids = dedup child_ids in
    same_count unique_ids (
      length (
        s.find_many (λ ch. ch.workspace_id == workspace_id && mem_id ch.id unique_ids) db.children))

-- `data` of the update in `updateExpenseStatus`; a note that is absent stays.
unfoldable pub patched_note : Cipher → NotePatch → Option String → Option String
patched_note c keep old = old
patched_note c (put note) old = encrypt_optional c note key_finance

abbrev pub apply_status :
    {Amount : Type 0} → Cipher → Status → NotePatch → Expense Amount → Expense Amount
apply_status c to note e = record e { status = to; note = patched_note c note e.note }

module _ (s : Store) (c : Cipher) {Amount : Type 0} where
  -- `serializeExpense`, on a row that was read with its children.
  unfoldable pub serialize_expense : Expense Amount → List ExpenseChild → ExpenseView Amount
  unfolding decrypt_optional_safe
  serialize_expense e links = record {
    id = e.id;
    title = decrypt_optional_safe c e.title (some "");
    amount = e.amount;
    currency = e.currency;
    category = e.category;
    child_ids = map (λ l. l.child_id) links;
    paid_by = e.paid_by_id;
    split_ratio = e.split_ratio;
    date = e.date;
    receipt_url = e.receipt_url;
    has_receipt = is_some (present e.receipt_content);
    status = e.status;
    note = decrypt_optional_safe c e.note none;
    hash = e.hash;
  }

  -- `include: { children: true }`
  abbrev links_of : Db s Amount → ℕ → List ExpenseChild
  links_of db id = s.find_many (λ l. l.expense_id == id) db.expense_children

  -- `listExpensesInRange`, without the final sort.
  unfoldable pub list_expenses_in_range : Db s Amount → ℕ → ℕ → ℕ → List (ExpenseView Amount)
  unfolding serialize_expense
  list_expenses_in_range db workspace_id from to =
      map (λ e. serialize_expense e (links_of db e.id))
        (s.find_many (λ e. e.workspace_id == workspace_id && (leb from e.date && leb e.date to))
          db.expenses)

  -- `updateExpenseStatus` behind its search.
  unfoldable pub update_found :
      Db s Amount
      → ℕ
      → Status
      → NotePatch
      → Option (Expense Amount)
      → Result (Option (ExpenseView Amount) × Db s Amount)
  unfolding serialize_expense check_transition
  update_found db actor_user_id to note none = ok (none, db)
  update_found db actor_user_id to note (some existing) = do
    check_transition existing.status to (actor_user_id == existing.paid_by_id)
    let updated = apply_status c to note existing
    ok (
      some (serialize_expense updated (links_of db existing.id)),
      record db {
        expenses = s.update_many (λ e. e.id == existing.id) (apply_status c to note) db.expenses;
      },
    )

  -- `updateExpenseStatus`; the view is `none` where the code returns `null`.
  unfoldable pub update_expense_status :
      Db s Amount
      → ℕ
      → ℕ
      → ℕ
      → Status
      → NotePatch
      → Result (Option (ExpenseView Amount) × Db s Amount)
  unfolding update_found
  update_expense_status db workspace_id expense_id actor_user_id to note =
      update_found db actor_user_id to note
        (s.find_first (λ e. e.id == expense_id && e.workspace_id == workspace_id) db.expenses)
