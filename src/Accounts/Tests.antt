-- ===== src/Accounts/Tests.antt =====
-- A reset link over a small database kept as lists.
use coparentes_backend.Common.{
  invalid_or_expired_token, ok, ℕ, zero, suc, err, parent_already_joined, ◌≡◌, refl, true, none,
  some, String, str_eq, [], ◌∷◌, arith,
}
use coparentes_backend.Common.Store.{list_store}
use coparentes_backend.Custody.Pattern.{parent_a, parent_b}
use coparentes_backend.Accounts.{Account, ResetToken, AccountDb, Platform}
use coparentes_backend.Accounts.Passwords.{
  confirm_password_reset, reset_password, mark_token, issue_link, link_row,
}
use coparentes_backend.Accounts.Joining.{Workspace, JoinDb, new_account, join_workspace}
use coparentes_backend.Accounts.Joining.Codes.{generate_unique_child_invite_code}
use coparentes_backend.Accounts.Reach.{InFamily}
use coparentes_backend.Accounts.Reach.{Step, joins}
use coparentes_backend.Accounts.SentLinks.{Sending, send_all, sent_link_works}
use coparentes_backend.Accounts.Links.{Confirms, confirm-Confirms}

abbrev platform : Platform
platform = record {
  hash = λ s. s;
  compare = str_eq;
  is_x25519_key = λ k. true;
  length = λ s. 1;
  placeholder_email = λ id. "deleted";
  anonymized_name = "deleted";
}

abbrev anna : Account
anna = record {
  id = 2;
  workspace_id = some 1;
  name = "Anna";
  email = "anna@example.com";
  password_hash = "old";
  role = parent_a;
  child_profile_id = none;
  public_key = none;
  private_key_envelope = none;
  recovery_key_envelope = none;
  must_change_password = true;
  deleted_at = none;
}

abbrev link : ResetToken
link = link_row 4 "h" 2 100

abbrev db : AccountDb list_store
db = record {
  users = anna ∷ [];
  sessions = [];
  challenges = [];
  devices = [];
  reset_tokens = link ∷ [];
}

abbrev db_after : AccountDb list_store
db_after = record {
  users = reset_password "new" anna ∷ [];
  sessions = [];
  challenges = [];
  devices = [];
  reset_tokens = mark_token 200 link ∷ [];
}

confirm-Confirms_example : Confirms list_store platform db db_after "h" "new" 200
unfolding confirm_password_reset
confirm-Confirms_example =
    confirm-Confirms list_store platform db db_after "h" "new" 200 (omega arith) refl

abbrev home : Workspace
home = record {
  id = 1;
  name = "Home";
  invite_code = "AB";
  invite_code_expires_at = some 900;
  child_invite_code = "CD";
}

abbrev families : JoinDb list_store
families = record { workspaces = home ∷ []; users = anna ∷ []; children = []; consents = [] }

abbrev father : Account
father = new_account 3 (some 1) "Jan" "jan@example.com" "pw" parent_b none

abbrev joined : JoinDb list_store
joined = record { workspaces = home ∷ []; users = anna ∷ father ∷ []; children = []; consents = [] }

join_twice :
    join_workspace list_store platform joined 4 500 "AB" none none "Ewa" "ewa@example.com" "pw"
    ≡ err parent_already_joined
unfolding join_workspace
join_twice = refl

father_joins : Step list_store families joined
unfolding join_workspace
father_joins =
    joins platform families joined 3 500 "AB" none none "Jan" "jan@example.com" "pw" father refl

anna-InFamily : InFamily list_store families
anna-InFamily = record { one_a = λ w. ground arith; one_b = λ w. ground arith }

abbrev draws : ℕ → String
draws k = elim k [ zero ↦ "AB" | suc k ↦ "EF" ]

drawn_free : generate_unique_child_invite_code list_store (home ∷ []) [] draws ≡ "EF"
unfolding generate_unique_child_invite_code
drawn_free = refl

abbrev db_sent : AccountDb list_store
db_sent = (issue_link list_store platform db 5 "g" 2 300 true).1

abbrev sent_to : ℕ → ℕ → String → Sending
sent_to user id h = record { id = id; token_hash = h; user_id = user; at = 400; mailed = true }

sent_link_works_example :
    ((db' : AccountDb list_store) × (confirm_password_reset list_store platform
          (send_all list_store platform (sent_to 3 6 "x" ∷ []) db_sent)
          "g"
          "pw"
          500
        ≡ ok db'))
    × (confirm_password_reset list_store platform db_sent "g" "pw" 4000000
        ≡ err invalid_or_expired_token)
    × (confirm_password_reset list_store platform
          (send_all list_store platform (sent_to 2 7 "y" ∷ []) db_sent)
          "g"
          "pw"
          500
        ≡ err invalid_or_expired_token)
sent_link_works_example =
    sent_link_works list_store platform db 5 "g" 2 300 (sent_to 3 6 "x" ∷ []) (sent_to 2 7 "y") 500
      4000000 500 "pw" (refl, tt) ((refl, refl), tt) refl refl refl (omega arith) (omega arith)
