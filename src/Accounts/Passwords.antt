-- ===== src/Accounts/Passwords.antt =====
-- Passwords: change, reset links, and the end of an account.
use coparentes_backend.Common.{
  ℕ, ◌+◌, ◌*◌, Bool, true, false, not, ◌&&◌, Option, none, some, String, str_eq, ◌==◌, ltb, leb,
  is_some, if◌then◌else◌, Result, ok, err, throw_if, or_throw, ◌>>=◌, ◌>>◌, invalid_credentials,
  invalid_public_key, private_key_envelope_required, invalid_or_expired_token, invalid_session,
  invalid_password, child_not_found, no_recovery_contact, record_not_found,
}
use coparentes_backend.Common.Store.{Store}
use coparentes_backend.Custody.Pattern.{Role, child}
use coparentes_backend.Accounts.{Account, ResetToken, AccountDb, Platform}

abbrev pub is_child : Role → Bool
is_child child = true
is_child _ = false

-- `where: { userId }`, on each of the tables that hold a user's artifacts.
module _ (s : Store) where
  -- `deleteAllSessionsForUser`
  unfoldable pub end_sessions : ℕ → AccountDb s → AccountDb s
  end_sessions user db = record db { sessions = s.delete_many (λ x. x.user_id == user) db.sessions }

  -- `invalidateUserSecurityArtifacts`
  unfoldable pub invalidate_artifacts : ℕ → AccountDb s → AccountDb s
  invalidate_artifacts user db = record db {
    challenges = s.delete_many (λ x. x.user_id == user) db.challenges;
    devices = s.delete_many (λ x. x.user_id == user) db.devices;
  }

-- `typeof x === 'string' && x.length > 0`
abbrev pub given_key : Option String → Option String
given_key none = none
given_key (some k) = if str_eq k "" then none else some k

-- `typeof x === 'string' && 1 <= x.length <= 4000`
abbrev pub given_envelope : (String → ℕ) → Option String → Option String
given_envelope length none = none
given_envelope length (some e) = if leb 1 (length e) && leb (length e) 4000 then some e else none

-- The checks on a new key: it is well formed and comes with an envelope.
abbrev pub check_key : (String → Bool) → Option String → Option String → Result (Unit {0})
check_key well_formed none envelope = ok tt
check_key well_formed (some k) envelope = do
  throw_if (not (well_formed k)) invalid_public_key
  throw_if (not (is_some envelope)) private_key_envelope_required
  ok tt

-- `{ passwordHash, mustChangePassword: false, … }`, with and without a new envelope.
abbrev pub set_password : String → Option String → Option String → Account → Account
set_password hash key (some e) u = record u {
  password_hash = hash;
  must_change_password = false;
  private_key_envelope = some e;
  public_key = elim key [ some k ↦ some k | none ↦ u.public_key ];
}
set_password hash key none u = record u {
  password_hash = hash;
  must_change_password = false;
  public_key = none;
  private_key_envelope = none;
  recovery_key_envelope = none;
}

abbrev pub reset_password : String → Account → Account
reset_password hash u = record u { password_hash = hash; must_change_password = false }

-- How a request for a reset link ends: the answer that does not tell whether the account exists, or an error of
-- the mail provider.
pub data LinkOutcome : Type 0 where
  generic mail_failed : LinkOutcome

abbrev pub link_ttl_ms : ℕ
link_ttl_ms = 60 * 60 * 1000

abbrev pub is_unused : ResetToken → Bool
is_unused t = not (is_some t.used_at)

-- `where: { tokenHash, usedAt: null, expiresAt: { gt: now } }`
abbrev pub is_live : String → ℕ → ResetToken → Bool
is_live h now t = str_eq t.token_hash h && (is_unused t && ltb now t.expires_at)

abbrev pub mark_token : ℕ → ResetToken → ResetToken
mark_token now t = record t { used_at = some now }

abbrev pub link_row : ℕ → String → ℕ → ℕ → ResetToken
link_row id h user now = record {
  id = id;
  token_hash = h;
  user_id = user;
  expires_at = now + link_ttl_ms;
  used_at = none;
}

-- `{ email, passwordHash, name, publicKey: null, privateKeyEnvelope: null, deletedAt }`
abbrev pub anonymize : Platform → String → ℕ → Account → Account
anonymize p random now u = record u {
  email = p.placeholder_email u.id;
  password_hash = p.hash random;
  name = p.anonymized_name;
  public_key = none;
  private_key_envelope = none;
  deleted_at = some now;
}

module _ (s : Store) (p : Platform) where
  -- `changeUserPassword` behind its search.
  unfoldable pub change_found :
      AccountDb s
      → String
      → String
      → Option String
      → Option String
      → Option Account
      → Result (AccountDb s)
  unfolding end_sessions invalidate_artifacts
  change_found db current new key envelope none = err invalid_credentials
  change_found db current new key envelope (some u) = do
    throw_if (not (p.compare current u.password_hash)) invalid_credentials
    check_key p.is_x25519_key (given_key key) (given_envelope p.length envelope)
    let write = set_password (p.hash new) (given_key key) (given_envelope p.length envelope)
    ok (
        invalidate_artifacts s u.id (
          end_sessions s u.id
            (record db { users = s.update_many (λ r. r.id == u.id) write db.users })))

  -- `changeUserPassword`
  unfoldable pub change_user_password :
      AccountDb s → ℕ → String → String → Option String → Option String → Result (AccountDb s)
  unfolding change_found
  change_user_password db user current new key envelope =
      change_found db current new key envelope (s.find_first (λ u. u.id == user) db.users)

  -- The link of a user: the new row, the older unused ones deleted, and the row deleted again when the mail fails.
  unfoldable pub issue_link : AccountDb s → ℕ → String → ℕ → ℕ → Bool → LinkOutcome × AccountDb s
  issue_link db id h user now mailed =
      let created = s.create (link_row id h user now) db.reset_tokens in
      let kept =
        s.delete_many (λ t. t.user_id == user && (is_unused t && not (t.id == id))) created in
      if mailed
      then (generic, record db { reset_tokens = kept })
      else (mail_failed, record db { reset_tokens = s.delete_many (λ t. t.id == id) kept })

  -- `requestPasswordReset` behind its search.
  unfoldable pub reset_found :
      AccountDb s → ℕ → String → ℕ → Bool → Option Account → LinkOutcome × AccountDb s
  unfolding issue_link
  reset_found db id h now mailed none = (generic, db)
  reset_found db id h now mailed (some u) =
      if is_some u.deleted_at then (generic, db) else issue_link db id h u.id now mailed

  -- `requestPasswordReset`, on the trimmed email in lower case.
  unfoldable pub request_password_reset :
      AccountDb s → String → ℕ → String → ℕ → Bool → LinkOutcome × AccountDb s
  unfolding reset_found
  request_password_reset db email id h now mailed =
      reset_found db id h now mailed (s.find_first (λ u. str_eq u.email email) db.users)

  -- `requestChildPasswordReset`; whether a parent's address is known is an argument.
  unfoldable pub request_child_password_reset :
      AccountDb s → ℕ → ℕ → Bool → ℕ → String → ℕ → Bool → Result (LinkOutcome × AccountDb s)
  unfolding issue_link
  request_child_password_reset db child_id ws has_contact id h now mailed = do
    u ←
        or_throw
          (s.find_first
            (λ u.
              u.id == child_id
              && (elim u.workspace_id [ none ↦ false | some w ↦ w == ws ]
                  && (is_child u.role && not (is_some u.deleted_at))))
            db.users)
          child_not_found
    throw_if (not has_contact) no_recovery_contact
    ok (issue_link db id h u.id now mailed)

  -- The rest of `confirmPasswordReset`, once a live token was marked: the row that the token's hash finds
  -- names the user.
  unfoldable pub confirm_claimed :
      AccountDb s → String → Option ResetToken → s.Table ResetToken → Result (AccountDb s)
  unfolding end_sessions
  confirm_claimed db new none marked = err record_not_found
  confirm_claimed db new (some t) marked = ok (
      end_sessions s t.user_id (record db {
        users = s.update_many (λ u. u.id == t.user_id) (reset_password (p.hash new)) db.users;
        reset_tokens = marked;
      }))

  -- `confirmPasswordReset`, on the hash of the token; `updated.count === 0` when no row is live.
  unfoldable pub confirm_password_reset : AccountDb s → String → String → ℕ → Result (AccountDb s)
  unfolding confirm_claimed
  confirm_password_reset db h new now =
      let marked = s.update_many (is_live h now) (mark_token now) db.reset_tokens in
      throw_if (not (is_some (s.find_first (is_live h now) db.reset_tokens)))
        invalid_or_expired_token
      >> confirm_claimed db new (s.find_first (λ t. str_eq t.token_hash h) marked) marked

  -- `deleteOwnAccount` behind its search, without the keys, consents, tags and invites that it clears.
  unfoldable pub delete_own_found :
      AccountDb s → String → String → ℕ → Option Account → Result (AccountDb s)
  unfolding end_sessions invalidate_artifacts
  delete_own_found db password random now none = err invalid_session
  delete_own_found db password random now (some u) = do
    throw_if (is_some u.deleted_at) invalid_session
    throw_if (not (p.compare password u.password_hash)) invalid_password
    ok (
        invalidate_artifacts s u.id (
          end_sessions s u.id (record db {
            users = s.update_many (λ r. r.id == u.id) (anonymize p random now) db.users;
          })))

  -- `deleteOwnAccount`
  unfoldable pub delete_own_account : AccountDb s → ℕ → String → String → ℕ → Result (AccountDb s)
  unfolding delete_own_found
  delete_own_account db user password random now =
      delete_own_found db password random now (s.find_first (λ u. u.id == user) db.users)
