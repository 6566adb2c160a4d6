-- ===== src/Logins/Admitted.antt =====
-- Who is logged in by a password, and that the next request is let in.
use Prim.Native.String
use mathlib.Core.List.{Memᴰ}
use coparentes_backend.Common.{
  ℕ, ◌≤◌, ◌≡◌, ◌≢◌, sym, ap, subst, inl, inr, true, false, Option, String, str_eq, filter, length,
  is_some, Bool-cases, Option-cases, Result-cases, ok, ok_injective,
}
use coparentes_backend.Common.Store.{Store, Finds}
use coparentes_backend.Sessions.{
  Session, User, of_user, is_retired_auth_role, create_session_for_user,
}
use coparentes_backend.Sessions.Bound.{create_session_le_max}
use coparentes_backend.Accounts.{Account, AccountDb, Platform}
use coparentes_backend.Otp.{create_challenge}
use coparentes_backend.Otp
use coparentes_backend.RateLimit.{consume_rate_limit_attempt, otp_issue}
use coparentes_backend.Logins.{
  LoginDb, Folding, Drawn, requires_otp, logged_in, Response, session_opened, has_email, login_user,
  issue_session_response, answer_login, send_login_otp, log_in,
}

-- The account that a login names: the address and the password fit, it is in a workspace, and its role is supported.
pub record Fits (s : Store) (p : Platform) (db : LoginDb s) (email password : String) (u : Account)
    : Type 0 where
  pub listed : Memᴰ u (s.rows db.accounts.users)
  pub address : str_eq u.email email ≡ true
  pub password_fits : p.compare password u.password_hash ≡ true
  pub scoped : is_some u.workspace_id ≡ true
  pub supported : is_retired_auth_role u.role ≡ false

-- What the middleware reads of an account.
abbrev pub user_of : Account → User
user_of u = record {
  id = u.id;
  workspace_id = u.workspace_id;
  deleted_at = u.deleted_at;
  role = u.role;
}

module _ (s : Store) (p : Platform) where
  login_user-Fits :
      (db : LoginDb s) (email password : String) (token : Option String) (now : ℕ) (u : Account)
      → login_user s p db.accounts email password token now ≡ ok (logged_in u)
      → Fits s p db email password u
  unfolding login_user
  login_user-Fits db email password token now u e =
      elim (Option-cases (s.find_first (has_email email) db.accounts.users)) [
        | inl gone ↦ absurd (cc (rw gone at e))
        | inr (v, found) ↦ elim (Bool-cases (p.compare password v.password_hash)) [
          | inr wrong ↦ absurd (cc (rw (found, wrong) at e))
          | inl right ↦ elim (Bool-cases (is_some v.workspace_id)) [
            | inr homeless ↦ absurd (cc (rw (found, right, homeless) at e))
            | inl scoped ↦ elim (Bool-cases (is_retired_auth_role v.role)) [
              | inl retired ↦ absurd (cc (rw (found, right, scoped, retired) at e))
              | inr supported ↦
                  let same : logged_in v ≡ logged_in u =
                    ok_injective (rw (found, right, scoped, supported) at e) in
                  let (fits, m) =
                    subst (Finds (has_email email) (s.rows db.accounts.users)) found
                      (s.find_first-Finds _ _) in
                  subst (Fits s p db email password) (cc same) (record {
                    listed = m;
                    address = fits;
                    password_fits = right;
                    scoped = scoped;
                    supported = supported;
                  })
            ]
          ]
        ]
      ]

  opened_lem :
      (db db' : LoginDb s) (u v : Account) (d : Drawn)
      → issue_session_response s p db v d ≡ (session_opened u, db')
      → (v ≡ u)
        × (is_retired_auth_role u.role ≡ false)
        × (create_session_for_user s db.accounts.sessions u.id d.session_id d.token_hash
              d.session_expires_at
            ≡ db'.accounts.sessions)
        × (db.accounts.users ≡ db'.accounts.users)
  unfolding issue_session_response
  opened_lem db db' u v d e = elim (Bool-cases (is_retired_auth_role v.role)) [
    | inl retired ↦ absurd (cc (rw retired at e))
    | inr supported ↦
        let whole = rw supported at e in
        let same : v ≡ u = cc (ap (λ (x : Response × LoginDb s). x.0) whole) in
        let after = ap (λ (x : Response × LoginDb s). x.1.accounts) whole in
        (
          same,
          subst (λ (w : Account). is_retired_auth_role w.role ≡ false) same supported,
          subst
              (λ (w : Account).
                create_session_for_user s db.accounts.sessions w.id d.session_id d.token_hash
                  d.session_expires_at
                ≡ db'.accounts.sessions)
              same (ap (λ (a : AccountDb s). a.sessions) after),
          ap (λ (a : AccountDb s). a.users) after,
        )
  ]

  module _ (f : Folding) (o : coparentes_backend.Otp.Options) where
    otp_opens_none :
        (db : LoginDb s) (v : Account) (d : Drawn) (u : Account)
        → (send_login_otp s p f o db v d).0 ≢ session_opened u
    unfolding send_login_otp
    otp_opens_none db v d u e =
        elim (Bool-cases
          (consume_rate_limit_attempt db.issue_buckets
            (String.◌++◌ "otp-issue:user:" (f.id_text v.id)) otp_issue d.now).0) [
              | inr many ↦ cc (rw many at e)
              | inl few ↦
                  elim (Result-cases
                    (create_challenge s o p.compare db.accounts.challenges d.challenge_id v.id
                      d.code_hash d.now d.mailed).0) [
                        | inl (code, bad) ↦ cc (rw (few, bad) at e)
                        | inr (row, good) ↦ cc (rw (few, good) at e)
                      ]
            ]

    -- A call of `POST /login` that opens a session found an account with the address, whose password fits, which is in a workspace and has a
    -- supported role; the session is this account's, which then has at most five, and no account changes.
    pub log_in-Fits :
        (db db' : LoginDb s) (email password : String) (token : Option String) (d : Drawn)
        (u : Account)
        → log_in s p f o db email password token d ≡ (session_opened u, db')
        → Fits s p db email password u
          × (create_session_for_user s db.accounts.sessions u.id d.session_id d.token_hash
                d.session_expires_at
              ≡ db'.accounts.sessions)
          × (length (filter (of_user u.id) (s.rows db'.accounts.sessions)) ≤ 5)
          × (db'.accounts.users ≡ db.accounts.users)
    unfolding log_in answer_login
    log_in-Fits db db' email password token d u e =
        elim (Result-cases (login_user s p db.accounts email password token d.now)) [
          | inl (code, bad) ↦ absurd (cc (rw bad at e))
          | inr (requires_otp v, good) ↦
              absurd
                (otp_opens_none db v d u (ap (λ (x : Response × LoginDb s). x.0) (rw good at e)))
          | inr (logged_in v, good) ↦
              let (same, _, sessions, users) = opened_lem db db' u v d (rw good at e) in
              (
                subst (Fits s p db email password) same
                    (login_user-Fits db email password token d.now v good),
                sessions,
                subst (λ (t : s.Table Session). length (filter (of_user u.id) (s.rows t)) ≤ 5)
                    sessions
                    (create_session_le_max s db.accounts.sessions u.id d.session_id d.token_hash
                      d.session_expires_at),
                sym users,
              )
        ]
