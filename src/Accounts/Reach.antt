-- ===== src/Accounts/Reach.antt =====
-- Runs of the operations that write accounts.
use coparentes_backend.Common.{
  ℕ, ◌≤◌, ◌≡◌, false, Option, String, List, count, length, arith, All, ok,
}
use coparentes_backend.Common.Store.{Store}
use coparentes_backend.Custody.Pattern.{parent_a, parent_b}
use coparentes_backend.Consents.{Payload}
use coparentes_backend.Accounts.{Account, AccountDb, Platform}
use coparentes_backend.Accounts.Passwords.{delete_own_account}
use coparentes_backend.Accounts.Joining.Codes.{register_user, create_workspace}
use coparentes_backend.Accounts.Joining.{
  JoinDb, Labels, holds, list_parent_user_ids, join_workspace, authenticate_child_access,
}
use coparentes_backend.Accounts.Children.{delete_child}
use coparentes_backend.Accounts.Parents.{length-parents}
use coparentes_backend.Accounts.Family.{IsFamily, Keeps, IsFamily-Keeps, in_workspace}
use coparentes_backend.Accounts.Roles.{
  joined-OnUsers, entered-OnUsers, registered-OnUsers, removed-OnUsers, left-Keeps,
}

module _ (s : Store) where
  -- One operation that makes or closes an account, with the ids that the database gives to new rows.
  pub data Step : JoinDb s → JoinDb s → Type 0 where
    registers :
        (p : Platform) (db db' : JoinDb s) (ws id ttl_hours now : ℕ) (codes : ℕ → String)
        (title name email password ip : String) (consents : Payload) (u : Account)
        → All (λ x. in_workspace ws x ≡ false) (s.rows db.users)
        → register_user s p db ws title ttl_hours codes id name email password consents now ip
          ≡ ok (u, db')
        → Step db db'
    joins :
        (p : Platform) (db db' : JoinDb s) (id now : ℕ) (code : String) (child_code : Option String)
        (profile : Option ℕ) (name email password : String) (u : Account)
        → join_workspace s p db id now code child_code profile name email password ≡ ok (u, db')
        → Step db db'
    enters :
        (p : Platform) (labels : Labels) (db db' : JoinDb s) (id : ℕ) (code : String)
        (dob : Option ℕ) (password : String) (name : Option String) (u : Account)
        → authenticate_child_access s p labels db id code dob password name ≡ ok (u, db')
        → Step db db'
    removes_child :
        (labels : Labels) (db db' : JoinDb s) (ws id now : ℕ)
        → delete_child s labels db ws id now ≡ ok db'
        → Step db db'
    leaves :
        (p : Platform) (db : JoinDb s) (acc acc' : AccountDb s) (user now : ℕ)
        (password random : String)
        → acc.users ≡ db.users
        → delete_own_account s p acc user password random now ≡ ok acc'
        → Step db (record db { users = acc'.users })

  pub data Reach (start : JoinDb s) : JoinDb s → Type 0 where
    begin : Reach start start
    step : {db db' : JoinDb s} → Reach start db → Step db db' → Reach start db'

  pub Step-Keeps :
      (Inv : List Account → Type 0) (k : Keeps Inv) (db db' : JoinDb s)
      → Step db db'
      → Inv (s.rows db.users)
      → Inv (s.rows db'.users)
  unfolding register_user create_workspace
  Step-Keeps Inv k db db'
        (registers p _ _ ws id ttl_hours now codes title name email password ip consents u fresh e)
        f =
      registered-OnUsers s Inv k p db db'
        (create_workspace s db.workspaces ws title ttl_hours now codes) id now name email password
        ip consents u fresh f e
  Step-Keeps Inv k db db' (joins p _ _ id now code child_code profile name email password u e) f =
      joined-OnUsers s Inv k p db db' id now code child_code profile name email password u f e
  Step-Keeps Inv k db db' (enters p labels _ _ id code dob password name u e) f =
      entered-OnUsers s Inv k p labels db db' id code dob password name u f e
  Step-Keeps Inv k db db' (removes_child labels _ _ ws id now e) f =
      removed-OnUsers s Inv k labels db db' ws id now f e
  Step-Keeps Inv k db db' (leaves p _ acc acc' user now password random same e) f =
      left-Keeps s Inv k p acc acc' user now password random (rw same f) e

  abbrev pub InFamily : JoinDb s → Type 0
  InFamily db = IsFamily (s.rows db.users)

  Reach-InFamily : (start db : JoinDb s) → InFamily start → Reach start db → InFamily db
  Reach-InFamily start db f begin = f
  Reach-InFamily start db' f (step {db} r t) =
      Step-Keeps IsFamily IsFamily-Keeps db db' t (Reach-InFamily start db f r)

  -- After any sequence of registrations, joins with a parent's or a child's code, sign-ins of children, removals of
  -- children and closings of accounts, from tables with at most one active parentA and one active parentB in each workspace, that
  -- still holds, and `listParentUserIds` lists at most two users of a workspace. The database gives a new workspace an id that no account refers to.
  pub Reach-parents :
      (start db : JoinDb s)
      → InFamily start
      → Reach start db
      → (w : ℕ)
      → (count (holds parent_a w) (s.rows db.users) ≤ 1)
        × (count (holds parent_b w) (s.rows db.users) ≤ 1)
        × (length (list_parent_user_ids s db.users w) ≤ 2)
  unfolding list_parent_user_ids
  Reach-parents start db f r w =
      let g = Reach-InFamily start db f r in
      (
        g.one_a w,
        g.one_b w,
        rw (s.find_many-rows, length-parents w (s.rows db.users))
            (omega (arith, g.one_a w, g.one_b w)),
      )
