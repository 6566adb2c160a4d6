-- ===== src/Finances/Tests.antt =====
-- Expenses over a small database kept as lists.
use mathlib.Core.List.{Memᴰ}
use coparentes_backend.Common.{
  ℕ, ◌≡◌, refl, Bool, true, false, none, some, List, [], ◌∷◌, arith, err,
  forbidden_status_transition, child_not_found,
}
use coparentes_backend.Common.Store.{list_store}
use coparentes_backend.Crypto.Sample.{toy_cipher}
use coparentes_backend.Finances.Expenses.{
  Status, pending, accepted, disputed, settled, Expense, Db, NewExpense, keep,
  update_expense_status, serialize_expense, ExpenseView, assert_children_in_workspace,
}
use coparentes_backend.Finances.Create.{Outside, create_expense, new_row, write_expense}
use coparentes_backend.Finances.Status.{run_transitions, settled_needs_both}
use coparentes_backend.Finances.Creation.{Creates, create_expense-Creates}

abbrev outside : Outside ℕ
outside = record {
  cipher = toy_cipher;
  round_money = λ n. n;
  integrity_hash = λ x a us now. "hash";
  decode = λ t. [];
}

abbrev books : Expense ℕ
books = record {
  id = 7;
  workspace_id = 1;
  title = some "Books";
  amount = 40;
  currency = "PLN";
  category = "School";
  paid_by_id = 2;
  split_ratio = 1;
  date = 1000;
  receipt_url = none;
  receipt_content = none;
  receipt_mime_type = none;
  status = pending;
  note = none;
  hash = "h";
}

abbrev db : Db list_store ℕ
db = record {
  users = record { id = 2; workspace_id = 1 } ∷ record { id = 3; workspace_id = 1 } ∷ [];
  children = record { id = 5; workspace_id = 1 } ∷ record { id = 6; workspace_id = 9 } ∷ [];
  expenses = books ∷ [];
  expense_children = [];
}

abbrev shoes : NewExpense ℕ
shoes = record {
  workspace_id = 1;
  title = "Shoes";
  amount = 90;
  currency = none;
  category = "Clothes";
  child_ids = 5 ∷ 5 ∷ [];
  paid_by = 3;
  split_ratio = 1;
  date = 2000;
  receipt_url = none;
  receipt_content = none;
  receipt_mime_type = none;
  note = none;
}

abbrev history : List (Bool × Status)
history =
    (true, accepted)
    ∷ (false, accepted)
    ∷ (false, settled)
    ∷ (true, settled)
    ∷ (false, disputed)
    ∷ []

payer_cannot_accept :
    update_expense_status list_store toy_cipher db 1 7 2 accepted keep
    ≡ err forbidden_status_transition
unfolding update_expense_status
payer_cannot_accept = refl

other_workspace_child : assert_children_in_workspace list_store db 1 (6 ∷ []) ≡ err child_not_found
unfolding assert_children_in_workspace
other_workspace_child = refl

settled_needs_both_example : Memᴰ (false, accepted) history × Memᴰ (true, settled) history
unfolding run_transitions
settled_needs_both_example = settled_needs_both history refl

abbrev after_shoes : Db list_store ℕ
after_shoes = write_expense list_store outside db 8 3000 shoes (5 ∷ [])

abbrev shoes_view : ExpenseView ℕ
shoes_view =
    serialize_expense list_store toy_cipher (new_row list_store outside 8 3000 shoes (5 ∷ []))
      (record { expense_id = 8; child_id = 5 } ∷ [])

create_expense-Creates_example : Creates list_store outside db 8 3000 shoes shoes_view after_shoes
unfolding create_expense new_row
create_expense-Creates_example =
    create_expense-Creates list_store outside db after_shoes 8 3000 shoes shoes_view (ground arith)
      (ground arith) refl
