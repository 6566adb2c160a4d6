-- ===== src/Sessions.antt =====
-- Sessions and the check of a request (src/services/session.js, src/middleware/auth.js,
-- src/middleware/rbac.js). The hash of a token, new ids and expiry dates are arguments.
pub mod Bound
pub mod Auth
mod Tests
use coparentes_backend.Common.{
  ℕ, ◌+◌, ◌-◌, Bool, true, false, not, ◌||◌, Option, none, some, List, [], map, String, str_eq,
  length, take, mem_id, ◌==◌, ltb, leb, is_some, if◌then◌else◌,
}
use coparentes_backend.Common.Store.{Store}
use coparentes_backend.Custody.Pattern.{Role, observer, is_parent}

pub record Session : Type 0 where
  pub id : ℕ
  pub token_hash : String
  pub user_id : ℕ
  pub expires_at : ℕ

abbrev pub max_sessions_per_user : ℕ
max_sessions_per_user = 5

-- What the middleware reads of a user.
pub record User : Type 0 where
  pub id : ℕ
  pub workspace_id : Option ℕ
  pub deleted_at : Option ℕ
  pub role : Role

-- `isRetiredAuthRole`
abbrev pub is_retired_auth_role : Role → Bool
is_retired_auth_role observer = true
is_retired_auth_role _ = false

-- How `requireAuth` ends: a status with its error, or the request with its user.
pub data Outcome : Type 0 where
  missing_token invalid_session role_not_supported : Outcome
  authenticated : User → Outcome

-- `where: { userId }`
abbrev pub of_user : ℕ → Session → Bool
of_user user x = x.user_id == user

module _ (s : Store) where
  -- The sessions that make room for a new one; `findMany` lists them oldest first.
  unfoldable pub make_room : ℕ → s.Table Session → s.Table Session
  make_room user t =
      let existing = s.find_many (of_user user) t in
      if leb max_sessions_per_user (length existing)
      then s.delete_many
          (λ x.
            mem_id x.id
              (map (λ e. e.id) (take (length existing - max_sessions_per_user + 1) existing)))
          t
      else t

  -- `createSessionForUser`
  unfoldable pub create_session_for_user : s.Table Session → ℕ → ℕ → String → ℕ → s.Table Session
  unfolding make_room
  create_session_for_user t user id token_hash expires_at =
      s.create
        (record { id = id; token_hash = token_hash; user_id = user; expires_at = expires_at })
        (make_room user t)

  -- `deleteSession` and `findSessionByToken`, on the hash of the token.
  unfoldable pub delete_session : String → s.Table Session → s.Table Session
  delete_session token_hash = s.delete_many (λ x. str_eq x.token_hash token_hash)

  unfoldable pub find_session : String → s.Table Session → Option Session
  find_session token_hash = s.find_first (λ x. str_eq x.token_hash token_hash)

  -- `purgeExpiredSessions`
  unfoldable pub purge_expired_sessions : ℕ → s.Table Session → s.Table Session
  purge_expired_sessions now = s.delete_many (λ x. ltb x.expires_at now)

  -- `!user?.workspaceId || user.deletedAt != null`, and the role behind it.
  unfoldable pub admit_user : Option User → Outcome
  admit_user none = invalid_session
  admit_user (some u) =
      if not (is_some u.workspace_id) || is_some u.deleted_at
      then invalid_session
      else if is_retired_auth_role u.role
      then role_not_supported
      else authenticated u

  -- The session is kept for a user who is let in, and deleted for every other.
  abbrev pub keep_if_admitted : String → Outcome → s.Table Session → s.Table Session
  keep_if_admitted h (authenticated u) t = t
  keep_if_admitted h _ t = delete_session h t

  unfoldable pub check_session :
      s.Table User → s.Table Session → ℕ → String → Option Session → Outcome × s.Table Session
  unfolding admit_user
  check_session users t now h none = (invalid_session, t)
  check_session users t now h (some x) =
      let r = admit_user (s.find_first (λ u. u.id == x.user_id) users) in
      if ltb x.expires_at now
      then (invalid_session, delete_session h t)
      else (r, keep_if_admitted h r t)

  -- `requireAuth`, on the hash of the request's token.
  unfoldable pub require_auth :
      s.Table User → s.Table Session → ℕ → Option String → Outcome × s.Table Session
  unfolding check_session find_session
  require_auth users t now none = (missing_token, t)
  require_auth users t now (some h) = check_session users t now h (find_session h t)
