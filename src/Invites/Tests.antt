-- ===== src/Invites/Tests.antt =====
-- An invitation over small tables kept as lists: the inviter is a parentB who is alone in the workspace.
use mathlib.Core.List.{Memᴰ}
use coparentes_backend.Common.{
  ◌≤◌, ◌≡◌, refl, none, some, [], ◌∷◌, count, length, arith, invite_not_active,
}
use coparentes_backend.Common.Store.{list_store}
use coparentes_backend.Custody.Dates.{add_utc_days}
use coparentes_backend.Custody.Pattern.{parent_a, parent_b}
use coparentes_backend.Accounts.{Account}
use coparentes_backend.Accounts.Joining.{new_account, holds, list_parent_user_ids}
use coparentes_backend.Invites.{
  EmailInvite, InviteDb, invite_row, accepted_db, accept_invite, refused, joined,
}
use coparentes_backend.Invites.Life.{
  LifeStep, answers, begin, step, StaysSmall, Life-parents, accept_second_parent_b,
}

abbrev father : Account
father = new_account 3 (some 1) "Jan" "jan@example.com" "pw" parent_b none

abbrev ewa : Account
ewa = new_account 4 (some 2) "Ewa" "ewa@example.com" "pw" parent_a none

abbrev invitation : EmailInvite
invitation = invite_row 9 1 "ewa@example.com" "t" 3 7 100

abbrev db : InviteDb list_store
db = record {
  families = record { workspaces = []; users = father ∷ ewa ∷ []; children = []; consents = [] };
  invites = invitation ∷ [];
}

abbrev db_after : InviteDb list_store
db_after = accepted_db list_store db ewa invitation 1 200

accepted_once : accept_invite list_store db_after ewa "t" 300 ≡ refused invite_not_active
unfolding accept_invite add_utc_days
accepted_once = refl

moves_in : accept_invite list_store db ewa "t" 200 ≡ joined db_after
unfolding accept_invite add_utc_days
moves_in = refl

accept_second_parent_b_example : 2 ≤ count (holds parent_b 1) db_after.families.users
accept_second_parent_b_example =
    accept_second_parent_b list_store db db_after ewa father invitation "t" 1 200 moves_in
      (omega arith) (Memᴰ.head refl) refl (omega arith) (Memᴰ.head refl) refl refl
      (Memᴰ.tail (Memᴰ.head refl)) refl (omega arith)

small_start : StaysSmall list_store db
small_start = record { one_a = λ w. ground arith; two = λ w. ground arith }

one_step : LifeStep list_store db db_after
unfolding accept_invite add_utc_days
one_step = answers db ewa "t" 200 (omega arith)

Life-parents_example :
    (count (holds parent_a 1) db_after.families.users ≤ 1)
    × (length (list_parent_user_ids list_store db_after.families.users 1) ≤ 2)
Life-parents_example = Life-parents list_store db db_after small_start (step begin one_step) 1
