-- ===== src/Accounts/Roles.antt =====
-- What the rules on the accounts keep, each operation keeps.
use coparentes_backend.Common.{
  ℕ, ◌≡◌, refl, sym, ap, subst, inl, inr, false, ◌&&◌, Option, none, some, String, str_eq, All,
  List, ◌==◌, is_some, Bool-cases, Option-cases, Result-cases, ok, ok_injective,
}
use coparentes_backend.Common.Store.{Store, Finds}
use coparentes_backend.Custody.Pattern.{parent_b, child}
use coparentes_backend.Consents.{Payload, validate_required_consents}
use coparentes_backend.Accounts.{Account, AccountDb, Platform}
use coparentes_backend.Accounts.Passwords.{
  anonymize, delete_own_account, delete_own_found, end_sessions, invalidate_artifacts,
}
use coparentes_backend.Accounts.Joining.{
  Workspace, JoinDb, Labels, holds, workspace_has_parent_b, register_with, join_workspace,
  join_as_parent, join_as_child, assert_parent_invite_join_allowed, authenticate_child_access,
  resolve_child_profile, enter_child, email_taken, linked_account, add_user,
  normalize_date_of_birth, ChildProfile, is_parent_invite_expired,
}
use coparentes_backend.Accounts.Children.{delete_child, close_child_account, close_linked}
use coparentes_backend.Accounts.Family.{Keeps, in_workspace}

module _ (s : Store) (Inv : List Account → Type 0) (k : Keeps Inv) where
  abbrev pub OnUsers : JoinDb s → Type 0
  OnUsers db = Inv (s.rows db.users)

  child_added-OnUsers :
      (db db' : JoinDb s) (u v : Account)
      → OnUsers db
      → u.role ≡ child
      → ok (add_user s db u) ≡ ok (v, db')
      → OnUsers db'
  child_added-OnUsers db db' u v f e r =
      rw (sym (ap (λ (x : Account × JoinDb s). x.1.users) (ok_injective r)), s.rows-create)
        (k.child_added (s.rows db.users) u e f)

  parent_joined-OnUsers :
      (p : Platform) (db db' : JoinDb s) (id now : ℕ) (name email password : String)
      (w : Option Workspace) (u : Account)
      → OnUsers db
      → join_as_parent s p db id now name email password w ≡ ok (u, db')
      → OnUsers db'
  unfolding join_as_parent assert_parent_invite_join_allowed workspace_has_parent_b
  parent_joined-OnUsers p db db' id now name email password none u f e = cc
  parent_joined-OnUsers p db db' id now name email password (some w) u f e =
      elim (Option-cases (s.find_first (holds parent_b w.id) db.users)) [
        | inr (x, found) ↦ absurd (cc (rw found at e))
        | inl free ↦ elim (Bool-cases (is_parent_invite_expired now w)) [
          | inl late ↦ absurd (cc (rw (free, late) at e))
          | inr live ↦
              rw
                (
                  sym (
                      ap (λ (x : Account × JoinDb s). x.1.users)
                        (ok_injective (rw (free, live) at e))),
                  s.rows-create,
                )
                (k.parent_added (s.rows db.users) _ w.id f refl refl (
                  subst (Finds (holds parent_b w.id) (s.rows db.users)) free
                    (s.find_first-Finds _ db.users)))
        ]
      ]

  child_joined-OnUsers :
      (p : Platform) (db db' : JoinDb s) (id : ℕ) (profile : Option ℕ)
      (name email password : String) (w : Option Workspace) (u : Account)
      → OnUsers db
      → join_as_child s p db id profile name email password w ≡ ok (u, db')
      → OnUsers db'
  unfolding join_as_child
  child_joined-OnUsers p db db' id profile name email password none u f e = cc
  child_joined-OnUsers p db db' id none name email password (some w) u f e = cc
  child_joined-OnUsers p db db' id (some c) name email password (some w) u f e =
      elim (Option-cases (s.find_first (λ r. r.id == c && r.workspace_id == w.id) db.children)) [
        | inl gone ↦ absurd (cc (rw gone at e))
        | inr (r, found) ↦ elim (Option-cases (linked_account s db.users r.id)) [
          | inr (x, taken) ↦ absurd (cc (rw (found, taken) at e))
          | inl free ↦ child_added-OnUsers db db' _ u f refl (rw (found, free) at e)
        ]
      ]

  pub joined-OnUsers :
      (p : Platform) (db db' : JoinDb s) (id now : ℕ) (code : String) (child_code : Option String)
      (profile : Option ℕ) (name email password : String) (u : Account)
      → OnUsers db
      → join_workspace s p db id now code child_code profile name email password ≡ ok (u, db')
      → OnUsers db'
  unfolding join_workspace
  joined-OnUsers p db db' id now code none profile name email password u f e =
      elim (Bool-cases (email_taken s db.users email)) [
        | inl taken ↦ absurd (cc (rw taken at e))
        | inr free ↦ parent_joined-OnUsers p db db' id now name email password _ u f (rw free at e)
      ]
  joined-OnUsers p db db' id now code (some child_code) profile name email password u f e =
      elim (Bool-cases (email_taken s db.users email)) [
        | inl taken ↦ absurd (cc (rw taken at e))
        | inr free ↦
            child_joined-OnUsers p db db' id profile name email password _ u f (rw free at e)
      ]

  child_in-OnUsers :
      (p : Platform) (labels : Labels) (db db' : JoinDb s) (id : ℕ) (password : String)
      (name : Option String) (c : ChildProfile) (account : Option Account) (u : Account)
      → OnUsers db
      → enter_child s p labels db id password name c account ≡ ok (u, db')
      → OnUsers db'
  unfolding enter_child
  child_in-OnUsers p labels db db' id password name c (some a) u f e =
      elim (Bool-cases (is_some a.deleted_at)) [
        | inl gone ↦ absurd (cc (rw gone at e))
        | inr here ↦ elim (Bool-cases (p.compare password a.password_hash)) [
          | inr wrong ↦ absurd (cc (rw (here, wrong) at e))
          | inl right ↦
              rw
                (sym (
                  ap (λ (x : Account × JoinDb s). x.1.users)
                    (ok_injective (rw (here, right) at e))))
                f
        ]
      ]
  child_in-OnUsers p labels db db' id password none c none u f e = cc
  child_in-OnUsers p labels db db' id password (some n) c none u f e =
      elim (Bool-cases (email_taken s db.users (labels.child_account_email c.id))) [
        | inl taken ↦ absurd (cc (rw taken at e))
        | inr free ↦ child_added-OnUsers db db' _ u f refl (rw free at e)
      ]

  pub entered-OnUsers :
      (p : Platform) (labels : Labels) (db db' : JoinDb s) (id : ℕ) (code : String) (dob : Option ℕ)
      (password : String) (name : Option String) (u : Account)
      → OnUsers db
      → authenticate_child_access s p labels db id code dob password name ≡ ok (u, db')
      → OnUsers db'
  unfolding authenticate_child_access
  entered-OnUsers p labels db db' id code dob password name u f e =
      elim (Option-cases (normalize_date_of_birth dob)) [
        | inl bad ↦ absurd (cc (rw bad at e))
        | inr (d, date) ↦
            elim (Result-cases (
              resolve_child_profile s db d
                (s.find_first (λ w. str_eq w.child_invite_code code) db.workspaces)
                (s.find_first (λ r. elim r.invite_code [ none ↦ false | some k ↦ str_eq k code ])
                  db.children))) [
                    | inl (c, refused) ↦ absurd (cc (rw (date, refused) at e))
                    | inr (c, found) ↦
                        child_in-OnUsers p labels db db' id password name c _ u f
                          (rw (date, found) at e)
                  ]
      ]

  pub registered-OnUsers :
      (p : Platform) (db db' : JoinDb s) (w : Workspace) (id now : ℕ)
      (name email password ip : String) (consents : Payload) (u : Account)
      → All (λ x. in_workspace w.id x ≡ false) (s.rows db.users)
      → OnUsers db
      → register_with s p db w id name email password consents now ip ≡ ok (u, db')
      → OnUsers db'
  unfolding register_with
  registered-OnUsers p db db' w id now name email password ip consents u fresh f e =
      elim (Result-cases (validate_required_consents consents)) [
        | inl (c, missing) ↦ absurd (cc (rw missing at e))
        | inr (_, given) ↦ elim (Bool-cases (email_taken s db.users email)) [
          | inl taken ↦ absurd (cc (rw (given, taken) at e))
          | inr free ↦
              rw
                (
                  sym (
                      ap (λ (x : Account × JoinDb s). x.1.users)
                        (ok_injective (rw (given, free) at e))),
                  s.rows-create,
                )
                (k.founder_added (s.rows db.users) _ w.id f refl refl fresh)
        ]
      ]

  linked_closed-Keeps :
      (labels : Labels) (now : ℕ) (account : Option Account) (users : s.Table Account)
      → Inv (s.rows users)
      → Inv (s.rows (close_linked s labels now account users))
  linked_closed-Keeps labels now none users f = f
  linked_closed-Keeps labels now (some a) users f =
      rw s.rows-update_many (
        k.closed (λ u. u.id == a.id) (close_child_account s labels now) (s.rows users) (λ u. refl)
          f)

  pub removed-OnUsers :
      (labels : Labels) (db db' : JoinDb s) (ws id now : ℕ)
      → OnUsers db
      → delete_child s labels db ws id now ≡ ok db'
      → OnUsers db'
  unfolding delete_child
  removed-OnUsers labels db db' ws id now f e =
      elim (Option-cases (s.find_first (λ r. r.id == id && r.workspace_id == ws) db.children)) [
        | inl gone ↦ absurd (cc (rw gone at e))
        | inr (r, found) ↦
            rw (sym (ap (λ (d : JoinDb s). d.users) (ok_injective (rw found at e))))
              (linked_closed-Keeps labels now (linked_account s db.users r.id) db.users f)
      ]

  pub left-Keeps :
      (p : Platform) (acc acc' : AccountDb s) (user now : ℕ) (password random : String)
      → Inv (s.rows acc.users)
      → delete_own_account s p acc user password random now ≡ ok acc'
      → Inv (s.rows acc'.users)
  unfolding delete_own_account delete_own_found end_sessions invalidate_artifacts
  left-Keeps p acc acc' user now password random f e =
      elim (Option-cases (s.find_first (λ u. u.id == user) acc.users)) [
        | inl gone ↦ absurd (cc (rw gone at e))
        | inr (u, found) ↦ elim (Bool-cases (is_some u.deleted_at)) [
          | inl deleted ↦ absurd (cc (rw (found, deleted) at e))
          | inr active ↦ elim (Bool-cases (p.compare password u.password_hash)) [
            | inr wrong ↦ absurd (cc (rw (found, active, wrong) at e))
            | inl right ↦
                rw
                  (
                    sym (
                        ap (λ (d : AccountDb s). d.users)
                          (ok_injective (rw (found, active, right) at e))),
                    s.rows-update_many,
                  )
                  (k.closed (λ r. r.id == u.id) (anonymize p random now) (s.rows acc.users)
                    (λ r. refl) f)
          ]
        ]
      ]
