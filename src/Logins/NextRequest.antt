-- ===== src/Logins/NextRequest.antt =====
-- A login that the data allow opens a session, and the session lets the next request in.
use mathlib.Core.List.{Memᴰ}
use coparentes_backend.Common.{
  ℕ, ◌≤◌, ◌≡◌, refl, ◌∙◌, inl, inr, Bool, true, false, Option, none, some, String, str_eq, map,
  count, length, ◌==◌, ==_iff, is_some, ltb, leb, Bool-cases, arith, eq_iff,
}
use coparentes_backend.Common.Store.{Store, find}
use coparentes_backend.Common.Rows.{mem-map, mem_added}
use coparentes_backend.Common.Rows.Unique.{
  Finds-find, find-some, count-append_one, count_of_find-none,
}
use coparentes_backend.Common.Rows.Views.{count-filter-le}
use coparentes_backend.Sessions.{
  Session, User, authenticated, is_retired_auth_role, make_room, create_session_for_user,
  require_auth, check_session, find_session, admit_user, of_user,
}
use coparentes_backend.Accounts.{Account, Platform}
use coparentes_backend.Otp
use coparentes_backend.Logins.{
  LoginDb, Folding, Drawn, session_opened, has_email, login_user, issue_session_response,
  answer_login, log_in,
}
use coparentes_backend.Logins.Admitted.{Fits, user_of}

abbrev pub opened : Drawn → ℕ → Session
opened d user = record {
  id = d.session_id;
  token_hash = d.token_hash;
  user_id = user;
  expires_at = d.session_expires_at;
}

-- What the middleware finds: the accounts in its own view, each id once.
pub record Viewed (s : Store) (users : s.Table User) (accounts : s.Table Account) : Type 0 where
  pub rows_viewed : s.rows users ≡ map user_of (s.rows accounts)
  pub single : (id : ℕ) → count (λ u. u.id == id) (s.rows users) ≤ 1

module _ (s : Store) where
  room_count :
      (t : s.Table Session) (user : ℕ) (q : Session → Bool)
      → count q (s.rows (make_room s user t)) ≤ count q (s.rows t)
  unfolding make_room
  room_count t user q =
      let existing = s.find_many (of_user user) t in
      elim (Bool-cases (leb 5 (length existing))) [
        | inl full ↦ rw (full, s.rows-delete_many) (count-filter-le q _ (s.rows t))
        | inr free ↦ rw free (omega arith)
      ]

  session_found :
      (t : s.Table Session) (d : Drawn) (user : ℕ)
      → find (λ x. str_eq x.token_hash d.token_hash) (s.rows t) ≡ none
      → find_session s d.token_hash
          (create_session_for_user s t user d.session_id d.token_hash d.session_expires_at)
        ≡ some (opened d user)
  unfolding create_session_for_user find_session
  session_found t d user fresh =
      let test : Session → Bool = λ x. str_eq x.token_hash d.token_hash in
      let hit : test (opened d user) ≡ true = (eq_iff _ _).1 refl in
      let after = s.create (opened d user) (make_room s user t) in
      let one : count test (s.rows after) ≤ 1 =
        rw (s.rows-create, count-append_one, hit)
          (omega (arith, room_count t user test, count_of_find-none test (s.rows t) fresh)) in
      let listed : Memᴰ (opened d user) (s.rows after) = rw s.rows-create (mem_added _ _) in
      Finds-find test (s.rows after) _ one (s.find_first-Finds test after)
      ∙ find-some test (s.rows after) one listed hit

  user_found :
      (users : s.Table User) (accounts : s.Table Account) (u : Account)
      → Viewed s users accounts
      → Memᴰ u (s.rows accounts)
      → s.find_first (λ v. v.id == u.id) users ≡ some (user_of u)
  user_found users accounts u v m =
      let listed : Memᴰ (user_of u) (s.rows users) =
        rw v.rows_viewed (mem-map user_of (s.rows accounts) m) in
      Finds-find (λ x. x.id == u.id) (s.rows users) _ (v.single u.id) (s.find_first-Finds _ users)
      ∙ find-some (λ x. x.id == u.id) (s.rows users) (v.single u.id) listed ((==_iff _ _).1 refl)

  admitted :
      (u : Account)
      → is_some u.workspace_id ≡ true
      → u.deleted_at ≡ none
      → is_retired_auth_role u.role ≡ false
      → admit_user s (some (user_of u)) ≡ authenticated (user_of u)
  unfolding admit_user
  admitted u scoped alive supported = rw (scoped, alive, supported) refl

  module _ (p : Platform) (f : Folding) (o : coparentes_backend.Otp.Options) where
    log_in-opens :
        (db : LoginDb s) (email password : String) (token : Option String) (d : Drawn) (u : Account)
        → Fits s p db email password u
        → count (has_email email) (s.rows db.accounts.users) ≤ 1
        → (log_in s p f o db email password token d).0 ≡ session_opened u
          × ((log_in s p f o db email password token d).1.accounts.sessions
              ≡ create_session_for_user s db.accounts.sessions u.id d.session_id d.token_hash
                  d.session_expires_at)
    unfolding log_in answer_login login_user issue_session_response
    log_in-opens db email password token d u h one =
        let found : s.find_first (has_email email) db.accounts.users ≡ some u =
          Finds-find (has_email email) (s.rows db.accounts.users) _ one (s.find_first-Finds _ _)
          ∙ find-some (has_email email) (s.rows db.accounts.users) one h.listed h.address in
        rw (found, h.password_fits, h.scoped, h.supported) (rw h.supported (refl, refl))

    -- Where an account has the address and no other has, its password fits, it is in a workspace, has a supported role and was not closed,
    -- `POST /login` opens a session for it, and `requireAuth` lets the next request with the new token in as this account until the session
    -- expires. The hash of the token is new, and the middleware finds each account once.
    pub log_in-authenticated :
        (db : LoginDb s) (email password : String) (token : Option String) (d : Drawn) (u : Account)
        (users : s.Table User) (later : ℕ)
        → Fits s p db email password u
        → u.deleted_at ≡ none
        → count (has_email email) (s.rows db.accounts.users) ≤ 1
        → find (λ x. str_eq x.token_hash d.token_hash) (s.rows db.accounts.sessions) ≡ none
        → Viewed s users db.accounts.users
        → later ≤ d.session_expires_at
        → ((log_in s p f o db email password token d).0 ≡ session_opened u)
          × ((require_auth s users
                (log_in s p f o db email password token d).1.accounts.sessions
                later
                (some d.token_hash)).0
              ≡ authenticated (user_of u))
    unfolding require_auth check_session
    log_in-authenticated db email password token d u users later h alive one fresh v in_time =
        let (opens, sessions) = log_in-opens db email password token d u h one in
        let early : ltb d.session_expires_at later ≡ false = ground (arith, in_time) in
        (
          opens,
          rw
              (
                sessions,
                session_found db.accounts.sessions d u.id fresh,
                early,
                user_found users db.accounts.users u v h.listed,
              )
              (admitted u h.scoped alive h.supported),
        )
