-- ===== src/Logins/Tests.antt =====
-- Logins over a small database kept as lists.
use mathlib.Core.List.{Memᴰ}
use coparentes_backend.Common.{
  ℕ, ◌≡◌, ◌≤◌, refl, true, false, none, some, str_eq, List, [], ◌∷◌, arith, filter, length,
}
use coparentes_backend.Common.Store.{list_store}
use coparentes_backend.Crypto.{decrypt_optional_safe}
use coparentes_backend.Crypto.Sample.{toy_cipher}
use coparentes_backend.Custody.Pattern.{parent_a, child}
use coparentes_backend.Otp
use coparentes_backend.Sessions.{
  User, authenticated, require_auth, of_user, create_session_for_user,
}
use coparentes_backend.Accounts.{Account, Platform}
use coparentes_backend.Accounts.Joining.{ChildProfile, normalize_date_of_birth}
use coparentes_backend.Logins.{
  LoginDb, Folding, Drawn, session_opened, log_in, authenticate_child_login,
}
use coparentes_backend.Logins.Admitted.{Fits, user_of, log_in-Fits}
use coparentes_backend.Logins.NextRequest.{Viewed, opened, log_in-authenticated}
use coparentes_backend.Logins.ChildLogin.{LetsIn, child_login-LetsIn}

abbrev platform : Platform
platform = record {
  hash = λ s. s;
  compare = str_eq;
  is_x25519_key = λ k. true;
  length = λ s. 3;
  placeholder_email = λ id. "deleted";
  anonymized_name = "deleted";
}

abbrev folding : Folding
folding = record { trim = λ s. s; lower = λ s. s; id_text = λ n. "2" }

abbrev codes : coparentes_backend.Otp.Options
codes = record { ttl_minutes = 10; max_attempts = 5; resend_cooldown_seconds = 60 }

abbrev anna : Account
anna = record {
  id = 2;
  workspace_id = some 1;
  name = "Anna";
  email = "anna@example.com";
  password_hash = "secret";
  role = parent_a;
  child_profile_id = none;
  public_key = none;
  private_key_envelope = none;
  recovery_key_envelope = none;
  must_change_password = false;
  deleted_at = none;
}

abbrev ola : Account
ola = record anna {
  id = 3;
  name = "Ola";
  email = "child+9";
  role = child;
  child_profile_id = some 9;
}

abbrev profile : ChildProfile
profile = record {
  id = 9;
  workspace_id = 1;
  name = "Olga";
  date_of_birth = 86400000;
  school = none;
  invite_code = none;
}

abbrev drawn : Drawn
drawn = record {
  session_id = 5;
  token_hash = "h";
  session_expires_at = 900;
  challenge_id = 6;
  code_hash = "c";
  mailed = true;
  device_id = 7;
  device_hash = "d";
  now = 100;
}

abbrev db : LoginDb list_store
db = record {
  accounts = record {
    users = anna ∷ ola ∷ [];
    sessions = [];
    challenges = [];
    devices = [];
    reset_tokens = [];
  };
  children = profile ∷ [];
  issue_buckets = λ k. none;
}

abbrev db_after : LoginDb list_store
db_after = record db { accounts = record db.accounts { sessions = opened drawn 2 ∷ [] } }

log_in-Fits_example :
    Fits list_store platform db "anna@example.com" "secret" anna
    × (create_session_for_user list_store [] 2 5 "h" 900 ≡ opened drawn 2 ∷ [])
    × (length (filter (of_user 2) (opened drawn 2 ∷ [])) ≤ 5)
    × (db_after.accounts.users ≡ db.accounts.users)
unfolding log_in create_session_for_user
log_in-Fits_example =
    log_in-Fits list_store platform folding codes db db_after "anna@example.com" "secret" none drawn
      anna refl

anna-Fits : Fits list_store platform db "anna@example.com" "secret" anna
anna-Fits = record {
  listed = Memᴰ.head refl;
  address = refl;
  password_fits = refl;
  scoped = refl;
  supported = refl;
}

abbrev viewed : List User
viewed = user_of anna ∷ user_of ola ∷ []

viewed-Viewed : Viewed list_store viewed db.accounts.users
viewed-Viewed = record { rows_viewed = refl; single = λ id. ground arith }

log_in-authenticated_example :
    ((log_in list_store platform folding codes db "anna@example.com" "secret" none drawn).0
      ≡ session_opened anna)
    × ((require_auth list_store viewed
          (log_in list_store platform folding codes db "anna@example.com" "secret" none
            drawn).1.accounts.sessions
          500
          (some "h")).0
        ≡ authenticated (user_of anna))
log_in-authenticated_example =
    log_in-authenticated list_store platform folding codes db "anna@example.com" "secret" none drawn
      anna viewed 500 anna-Fits refl (omega arith) refl viewed-Viewed (omega arith)

child_login-LetsIn_example :
    (dob : ℕ) × (normalize_date_of_birth (some 86400000) ≡ some dob)
    × LetsIn list_store platform folding toy_cipher db "Ola" dob "secret" ola
unfolding authenticate_child_login decrypt_optional_safe
child_login-LetsIn_example =
    child_login-LetsIn list_store platform folding toy_cipher db "Ola" (some 86400000) "secret" ola
      refl
