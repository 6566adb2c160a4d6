-- ===== src/Logins.antt =====
-- Logins: `loginUser`, `authenticateChildLogin` and `verifyLoginOtp` of src/services/authService.js, the trusted devices of
-- src/services/trustedDevice.service.js, and the routes of src/routes/auth.js that open a session. Requests were
-- validated; the limits of the express-rate-limit package stand in front.
pub mod Admitted
pub mod NextRequest
pub mod ChildLogin
mod Tests
use Prim.Native.String
use coparentes_backend.Common.{
  ℕ, ◌+◌, ◌*◌, Bool, true, false, not, ◌&&◌, Option, none, some, String, str_eq, List, [], ◌∷◌, any,
  filter, ◌==◌, ltb, is_some, if◌then◌else◌, Result, Code, ok, err, throw_if, or_throw, ◌>>=◌, ◌>>◌,
  invalid_credentials, user_missing_workspace, role_not_supported, otp_email_failed,
  invalid_request, invalid_date_of_birth, ambiguous_child_login,
}
use coparentes_backend.Common.Store.{Store}
use coparentes_backend.Crypto.{Cipher, decrypt_optional_safe}
use coparentes_backend.Custody.Pattern.{Role, child}
use coparentes_backend.Sessions.{
  Session, is_retired_auth_role, create_session_for_user, delete_session,
}
use coparentes_backend.Otp.{Challenge, Verdict, signed_in, create_challenge, verify_challenge}
use coparentes_backend.RateLimit.{Buckets, consume_rate_limit_attempt, otp_issue}
use coparentes_backend.Accounts.{Account, TrustedDevice, AccountDb, Platform}
use coparentes_backend.Accounts.Passwords.{is_child}
use coparentes_backend.Accounts.Joining.{
  ChildProfile, linked_account, is_same_calendar_day, normalize_date_of_birth,
}

pub record LoginDb (s : Store) : Type 0 where
  pub accounts : AccountDb s
  pub children : s.Table ChildProfile
  pub issue_buckets : Buckets

-- `trim`, `toLowerCase` and the text of an id.
pub record Folding : Type 0 where
  pub trim : String → String
  pub lower : String → String
  pub id_text : ℕ → String

-- What a request draws: new ids, hashes of new tokens and codes, expiry dates, whether the mail goes out, and the time.
pub record Drawn : Type 0 where
  pub session_id : ℕ
  pub token_hash : String
  pub session_expires_at : ℕ
  pub challenge_id : ℕ
  pub code_hash : String
  pub mailed : Bool
  pub device_id : ℕ
  pub device_hash : String
  pub now : ℕ

-- What `loginUser` returns: the user, with or without a code to ask for.
pub data LoginAnswer : Type 0 where
  requires_otp logged_in : Account → LoginAnswer

-- What a route of this file answers.
pub data Response : Type 0 where
  refused : Code → Response
  too_many_requests : Response
  otp_sent : ℕ → Response
  otp_refused : Verdict → Response
  session_opened : Account → Response

-- `requiresEmailOtp`
abbrev pub requires_email_otp : Account → Bool
requires_email_otp u = false

-- `where: { email }`
abbrev pub has_email : String → Account → Bool
has_email email u = str_eq u.email email

module _ (s : Store) (p : Platform) where
  -- `createTrustedDeviceToken`, on the hash of the token.
  unfoldable pub create_trusted_device_token :
      s.Table TrustedDevice → ℕ → ℕ → String → ℕ → ℕ → s.Table TrustedDevice
  create_trusted_device_token t id user token_hash ttl_days now =
      s.create
        (record {
          id = id;
          user_id = user;
          token_hash = token_hash;
          expires_at = now + ttl_days * 24 * 60 * 60 * 1000;
        })
        t

  -- `isTrustedDeviceValid`
  unfoldable pub is_trusted_device_valid : s.Table TrustedDevice → ℕ → Option String → ℕ → Bool
  is_trusted_device_valid t user none now = false
  is_trusted_device_valid t user (some token) now =
      not (str_eq token "")
      && any (λ d. p.compare token d.token_hash)
          (s.find_many (λ d. d.user_id == user && ltb now d.expires_at) t)

  -- `deleteAllTrustedDevicesForUser`
  unfoldable pub delete_all_trusted_devices : ℕ → s.Table TrustedDevice → s.Table TrustedDevice
  delete_all_trusted_devices user = s.delete_many (λ d. d.user_id == user)

  -- `loginUser`; the token of the device is read from the request.
  unfoldable pub login_user : AccountDb s → String → String → Option String → ℕ → Result LoginAnswer
  unfolding is_trusted_device_valid
  login_user db email password token now = do
    u ← or_throw (s.find_first (has_email email) db.users) invalid_credentials
    throw_if (not (p.compare password u.password_hash)) invalid_credentials
    throw_if (not (is_some u.workspace_id)) user_missing_workspace
    throw_if (is_retired_auth_role u.role) role_not_supported
    ok (
        if requires_email_otp u && not (is_trusted_device_valid db.devices u.id token now)
        then requires_otp u
        else logged_in u)

  -- `issueSessionResponse` with `buildSessionPayload`.
  unfoldable pub issue_session_response : LoginDb s → Account → Drawn → Response × LoginDb s
  issue_session_response db u d =
      if is_retired_auth_role u.role then (refused role_not_supported, db) else (
        session_opened u,
        record db {
          accounts = record db.accounts {
            sessions =
                create_session_for_user s db.accounts.sessions u.id d.session_id d.token_hash
                  d.session_expires_at;
          };
        },
      )

  module _ (f : Folding) (o : coparentes_backend.Otp.Options) where
    -- The part of `POST /login` that sends a code, with `issueLoginOtp`.
    unfoldable pub send_login_otp : LoginDb s → Account → Drawn → Response × LoginDb s
    send_login_otp db u d =
        let limit =
          consume_rate_limit_attempt db.issue_buckets
            (String.◌++◌ "otp-issue:user:" (f.id_text u.id)) otp_issue d.now in
        let counted : LoginDb s = record db { issue_buckets = limit.1 } in
        let issued =
          create_challenge s o p.compare db.accounts.challenges d.challenge_id u.id d.code_hash
            d.now d.mailed in
        let after : LoginDb s = record counted {
          accounts = record db.accounts { challenges = issued.1 };
        } in
        if limit.0
        then (
          elim issued.0 [ ok row ↦ otp_sent row.id | err code ↦ refused otp_email_failed ],
          after,
        )
        else (too_many_requests, counted)

    unfoldable pub answer_login : LoginDb s → Drawn → Result LoginAnswer → Response × LoginDb s
    unfolding issue_session_response send_login_otp
    answer_login db d (err code) = (refused code, db)
    answer_login db d (ok (requires_otp u)) = send_login_otp db u d
    answer_login db d (ok (logged_in u)) = issue_session_response db u d

    -- `POST /login`
    unfoldable pub log_in :
        LoginDb s → String → String → Option String → Drawn → Response × LoginDb s
    unfolding login_user answer_login
    log_in db email password token d =
        answer_login db d (login_user db.accounts email password token d.now)

    -- `trustDevice` of `verifyLoginOtpChallenge`.
    abbrev pub trusted : LoginDb s → ℕ → Bool → ℕ → Drawn → LoginDb s
    trusted db user trust ttl_days d =
        if trust
        then record db {
          accounts = record db.accounts {
            devices =
                create_trusted_device_token db.accounts.devices d.device_id user d.device_hash
                  ttl_days d.now;
          };
        }
        else db

    unfoldable pub answer_verdict : LoginDb s → Bool → ℕ → Drawn → Verdict → Response × LoginDb s
    unfolding issue_session_response create_trusted_device_token
    answer_verdict db trust ttl_days d (signed_in user) =
        elim (s.find_first (λ u. u.id == user) db.accounts.users) [
          | none ↦ (refused invalid_credentials, db)
          | some u ↦ issue_session_response (trusted db user trust ttl_days d) u d
        ]
    answer_verdict db trust ttl_days d v = (otp_refused v, db)

    -- `POST /login/verify-otp` behind its limits, with `verifyLoginOtp`. A challenge refers to a user.
    unfoldable pub verify_otp : LoginDb s → ℕ → String → Bool → ℕ → Drawn → Response × LoginDb s
    unfolding answer_verdict
    verify_otp db challenge code trust ttl_days d =
        let r = verify_challenge s o p.compare db.accounts.challenges challenge d.now code in
        answer_verdict (record db { accounts = record db.accounts { challenges = r.1 } }) trust
          ttl_days d r.0

  module _ (f : Folding) (c : Cipher) where
    -- `linkedAccount: { is: { role: 'child', deletedAt: null } }`
    abbrev pub is_open_child : Option Account → Bool
    is_open_child none = false
    is_open_child (some u) = is_child u.role && not (is_some u.deleted_at)

    abbrev pub folded_name : Option String → String
    folded_name none = ""
    folded_name (some name) = f.lower (f.trim name)

    abbrev pub goes_by : String → Option Account → Bool
    goes_by login none = false
    goes_by login (some u) =
        str_eq (folded_name (decrypt_optional_safe c (some u.name) (some ""))) (f.lower login)

    -- The filter of `authenticateChildLogin`.
    abbrev pub is_match : s.Table Account → String → ℕ → ChildProfile → Bool
    is_match users login dob r =
        is_same_calendar_day r.date_of_birth dob && goes_by login (linked_account s users r.id)

    abbrev pub only_account : s.Table Account → List ChildProfile → Result Account
    only_account users [] = err invalid_credentials
    only_account users (r ∷ []) = or_throw (linked_account s users r.id) invalid_credentials
    only_account users _ = err ambiguous_child_login

    -- `authenticateChildLogin`
    unfoldable pub authenticate_child_login :
        LoginDb s → String → Option ℕ → String → Result Account
    unfolding normalize_date_of_birth is_same_calendar_day
    authenticate_child_login db login date_of_birth password = do
      dob ← or_throw (normalize_date_of_birth date_of_birth) invalid_date_of_birth
      throw_if (ltb (p.length (f.trim login)) 2) invalid_request
      let users = db.accounts.users
      let candidates = s.find_many (λ r. is_open_child (linked_account s users r.id)) db.children
      u ← only_account users (filter (is_match users (f.trim login) dob) candidates)
      throw_if (not (p.compare password u.password_hash)) invalid_credentials
      ok u

    unfoldable pub answer_child : LoginDb s → Drawn → Result Account → Response × LoginDb s
    unfolding issue_session_response
    answer_child db d (err code) = (refused code, db)
    answer_child db d (ok u) = issue_session_response db u d

    -- `POST /child/login`
    unfoldable pub child_log_in :
        LoginDb s → String → Option ℕ → String → Drawn → Response × LoginDb s
    unfolding authenticate_child_login answer_child
    child_log_in db login date_of_birth password d =
        answer_child db d (authenticate_child_login db login date_of_birth password)

  -- `POST /logout`, on the hash of the request's token.
  unfoldable pub log_out : LoginDb s → String → LoginDb s
  log_out db token_hash = record db {
    accounts = record db.accounts { sessions = delete_session s token_hash db.accounts.sessions };
  }
