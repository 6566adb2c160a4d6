-- ===== src/Accounts/Children.antt =====
-- The children of a workspace, its name, and what a code shows of it (src/services/workspace.js). Texts are as they are stored
-- where they are written, and as they are read where they are shown; `decryptOptionalSafe` is an argument.
use coparentes_backend.Common.{
  ℕ, Bool, false, not, ◌&&◌, ◌||◌, Option, none, some, String, str_eq, List, [], ◌∷◌, map, filter,
  ◌==◌, ltb, is_some, Result, ok, throw_if, or_throw, ◌>>=◌, ◌>>◌, child_not_found,
  invalid_date_of_birth, invalid_request,
}
use coparentes_backend.Common.Store.{Store}
use coparentes_backend.Accounts.{Account}
use coparentes_backend.Accounts.Joining.Codes.{generate_unique_child_invite_code}
use coparentes_backend.Accounts.Joining.{
  Workspace, ChildProfile, JoinDb, Labels, is_active_parent, normalize_date_of_birth,
  linked_account,
}

module _ (s : Store) where
  -- `createChild`, with the texts as they are stored and the codes that it draws.
  unfoldable pub create_child :
      JoinDb s
      → ℕ
      → ℕ
      → String
      → Option ℕ
      → Option String
      → (ℕ → String)
      → Result (ChildProfile × JoinDb s)
  unfolding normalize_date_of_birth generate_unique_child_invite_code
  create_child db id ws name date_of_birth school codes = do
    dob ← or_throw (normalize_date_of_birth date_of_birth) invalid_date_of_birth
    let row : ChildProfile = record {
      id = id;
      workspace_id = ws;
      name = name;
      date_of_birth = dob;
      school = school;
      invite_code = some (generate_unique_child_invite_code s db.workspaces db.children codes);
    }
    ok (row, record db { children = s.create row db.children })

  -- What `deleteChild` writes to the account of the child.
  abbrev pub close_child_account : Labels → ℕ → Account → Account
  close_child_account labels now u = record u {
    deleted_at = some now;
    child_profile_id = none;
    email = labels.deleted_child_email u.id;
    name = labels.deleted_name;
  }

  abbrev pub close_linked : Labels → ℕ → Option Account → s.Table Account → s.Table Account
  close_linked labels now none users = users
  close_linked labels now (some a) users =
      s.update_many (λ u. u.id == a.id) (close_child_account labels now) users

  -- `deleteChild`
  unfoldable pub delete_child : Labels → JoinDb s → ℕ → ℕ → ℕ → Result (JoinDb s)
  delete_child labels db ws child_id now = do
    row ←
        or_throw (s.find_first (λ r. r.id == child_id && r.workspace_id == ws) db.children)
          child_not_found
    ok (record db {
      users = close_linked labels now (linked_account s db.users row.id) db.users;
      children = s.delete_many (λ r. r.id == child_id) db.children;
    })

  -- `listParentEmails`
  unfoldable pub list_parent_emails : s.Table Account → ℕ → List String
  list_parent_emails users ws =
      filter (λ e. not (str_eq e "")) (map (λ u. u.email) (s.find_many (is_active_parent ws) users))

  -- A field that a request may leave out.
  abbrev pub given_or : {A : Type 0} → Option A → A → A
  given_or none old = old
  given_or (some new) old = new

  -- `if (dateOfBirth != null)`: the new date, or none for a date that is not valid.
  unfoldable pub patched_date : Option (Option ℕ) → ℕ → Option ℕ
  unfolding normalize_date_of_birth
  patched_date none old = some old
  patched_date (some date) old = normalize_date_of_birth date

  abbrev pub write_child : Option String → ℕ → Option (Option String) → ChildProfile → ChildProfile
  write_child name date_of_birth school r = record r {
    name = given_or name r.name;
    date_of_birth = date_of_birth;
    school = given_or school r.school;
  }

  -- `updateChild`, before `serializeChild`.
  unfoldable pub update_child :
      JoinDb s
      → ℕ
      → ℕ
      → Option String
      → Option (Option ℕ)
      → Option (Option String)
      → Result (JoinDb s)
  unfolding patched_date
  update_child db ws child_id name date_of_birth school = do
    row ←
        or_throw (s.find_first (λ r. r.id == child_id && r.workspace_id == ws) db.children)
          child_not_found
    dob ← or_throw (patched_date date_of_birth row.date_of_birth) invalid_date_of_birth
    ok (record db {
      children = s.update_many (λ r. r.id == child_id) (write_child name dob school) db.children;
    })

  -- `updateWorkspaceName`, on the trimmed name.
  unfoldable pub update_workspace_name : (String → ℕ) → JoinDb s → ℕ → String → Result (JoinDb s)
  update_workspace_name length db ws name = do
    throw_if (ltb (length name) 2 || ltb 120 (length name)) invalid_request
    ok (record db {
      workspaces = s.update_many (λ w. w.id == ws) (λ w. record w { name = name }) db.workspaces;
    })

  -- A child as a preview shows it: its id, its name and whether it has an account.
  abbrev pub preview_of : (String → String) → s.Table Account → ChildProfile → ℕ × String × Bool
  preview_of opened users c = (c.id, opened c.name, is_some (linked_account s users c.id))

  abbrev pub preview_workspace :
      (String → String) → JoinDb s → Option Workspace → Option (String × List (ℕ × String × Bool))
  preview_workspace opened db none = none
  preview_workspace opened db (some w) = some (
    w.name,
    map (preview_of opened db.users) (s.find_many (λ r. r.workspace_id == w.id) db.children),
  )

  abbrev pub preview_child :
      (String → String)
      → JoinDb s
      → ChildProfile
      → Option Workspace
      → Option (String × List (ℕ × String × Bool))
  preview_child opened db c none = none
  preview_child opened db c (some w) = some (w.name, preview_of opened db.users c ∷ [])

  -- `getChildJoinPreview` behind its search for a child with the code.
  abbrev pub preview_found :
      (String → String)
      → JoinDb s
      → String
      → Option ChildProfile
      → Option (String × List (ℕ × String × Bool))
  preview_found opened db code (some c) =
      preview_child opened db c (s.find_first (λ w. w.id == c.workspace_id) db.workspaces)
  preview_found opened db code none =
      preview_workspace opened db
        (s.find_first (λ w. str_eq w.child_invite_code code) db.workspaces)

  -- `getChildJoinPreview`, its list in the order of the table.
  unfoldable pub get_child_join_preview :
      (String → String) → JoinDb s → String → Option (String × List (ℕ × String × Bool))
  get_child_join_preview opened db code =
      preview_found opened db code (
        s.find_first (λ r. elim r.invite_code [ none ↦ false | some k ↦ str_eq k code ])
          db.children)
