-- ===== src/Sessions/Auth.antt =====
-- Which requests `requireAuth` lets through, and that it ends the sessions of the others.
use mathlib.Core.List.{Memᴰ}
use coparentes_backend.Common.{
  ℕ, ◌≤◌, ◌≡◌, inl, inr, true, false, Option, none, some, List, arith, String, str_eq, is_some, ltb,
  ◌==◌, Bool-cases, subst,
}
use coparentes_backend.Common.Store.{Store, Finds}
use coparentes_backend.Sessions.{
  Session, User, authenticated, is_retired_auth_role, admit_user, check_session, require_auth,
  find_session,
}

-- A user that the middleware lets in, with the session that the request named.
abbrev pub Admits : List User → List Session → ℕ → String → User → Type 0
Admits users sessions now h u =
    (x : Session) × Memᴰ x sessions
    × (str_eq x.token_hash h ≡ true)
    × (now ≤ x.expires_at)
    × Memᴰ u users
    × (u.id ≡ x.user_id)
    × (is_some u.workspace_id ≡ true)
    × (u.deleted_at ≡ none)
    × (is_retired_auth_role u.role ≡ false)

module _ (s : Store) where
  admit_user_sound :
      (o : Option User) (u : User)
      → admit_user s o ≡ authenticated u
      → (o ≡ some u)
        × (is_some u.workspace_id ≡ true)
        × (u.deleted_at ≡ none)
        × (is_retired_auth_role u.role ≡ false)
  unfolding admit_user
  admit_user_sound none u h = cc
  admit_user_sound (some v) u h = ground arith

  check_session-Admits :
      (users : s.Table User) (t : s.Table Session) (now : ℕ) (h : String) (o : Option Session)
      (u : User)
      → Finds (λ x. str_eq x.token_hash h) (s.rows t) o
      → (check_session s users t now h o).0 ≡ authenticated u
      → Admits (s.rows users) (s.rows t) now h u
  unfolding check_session
  check_session-Admits users t now h none u found e = cc
  check_session-Admits users t now h (some x) u (hit, m) e =
      elim (Bool-cases (ltb x.expires_at now)) [
        | inl late ↦ absurd (cc (rw late at e))
        | inr in_time ↦
            let (same, scoped, alive, role) = admit_user_sound _ u (rw in_time at e) in
            let listed =
              subst (Finds (λ v. v.id == x.user_id) (s.rows users)) same
                (s.find_first-Finds _ users) in
            (
              x,
              m,
              hit,
              ground (arith, in_time),
              listed.1,
              ground (arith, listed.0),
              scoped,
              alive,
              role,
            )
      ]

  -- A request that `requireAuth` lets through carries the token of a session in the table that has not expired, and
  -- its user is in the table, belongs to a workspace, is not deleted and has no retired role.
  pub require_auth-Admits :
      (users : s.Table User) (t : s.Table Session) (now : ℕ) (h : String) (u : User)
      → (require_auth s users t now (some h)).0 ≡ authenticated u
      → Admits (s.rows users) (s.rows t) now h u
  unfolding require_auth find_session
  require_auth-Admits users t now h u e =
      check_session-Admits users t now h _ u (s.find_first-Finds _ t) e
