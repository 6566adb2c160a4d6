-- ===== src/Accounts/Joining.antt =====
-- Workspaces, invite codes and children (src/services/workspace.js), and how users get into a workspace
-- (src/services/authService.js). Invite codes come trimmed and in upper case; the codes that the code draws are a sequence.
pub mod Codes
use coparentes_backend.Common.{
  ℕ, ◌+◌, ◌*◌, Bool, true, false, not, ◌&&◌, ◌||◌, Option, none, some, String, str_eq, List, [],
  ◌∷◌, map, filter, ◌==◌, ltb, is_some, if◌then◌else◌, Result, ok, err, throw_if, or_throw, ◌>>=◌,
  ◌>>◌, email_in_use, workspace_not_found, parent_already_joined, invite_expired,
  child_profile_required, child_not_found, child_profile_taken, child_name_required,
  child_dob_mismatch, ambiguous_child_profile, invalid_invite, invalid_date_of_birth,
  invalid_credentials,
}
use coparentes_backend.Common.Store.{Store}
use coparentes_backend.Custody.Dates.{utc_day_start}
use coparentes_backend.Custody.Pattern.{Role, parent_a, parent_b, child, is_parent, same_role}
use coparentes_backend.Consents.{
  Consent, Payload, validate_required_consents, save_registration_consents,
}
use coparentes_backend.Accounts.{Account, Platform}

pub record Workspace : Type 0 where
  pub id : ℕ
  pub name : String
  pub invite_code : String
  pub invite_code_expires_at : Option ℕ
  pub child_invite_code : String

pub record ChildProfile : Type 0 where
  pub id : ℕ
  pub workspace_id : ℕ
  pub name : String
  pub date_of_birth : ℕ
  pub school : Option String
  pub invite_code : Option String

pub record JoinDb (s : Store) : Type 0 where
  pub workspaces : s.Table Workspace
  pub users : s.Table Account
  pub children : s.Table ChildProfile
  pub consents : s.Table Consent

-- The texts that the code writes: a child account's address, and the address and the name of a deleted one.
pub record Labels : Type 0 where
  pub child_account_email : ℕ → String
  pub deleted_child_email : ℕ → String
  pub deleted_name : String

-- `isParentInviteExpired`
abbrev pub is_parent_invite_expired : ℕ → Workspace → Bool
is_parent_invite_expired now w = elim w.invite_code_expires_at [ none ↦ true | some t ↦ ltb t now ]

-- `where: { workspaceId, role, deletedAt: null }`
abbrev pub holds : Role → ℕ → Account → Bool
holds role ws u =
    elim u.workspace_id [ none ↦ false | some w ↦ w == ws ]
    && (same_role u.role role && not (is_some u.deleted_at))

-- The same for both parents' roles.
abbrev pub is_active_parent : ℕ → Account → Bool
is_active_parent ws u =
    elim u.workspace_id [ none ↦ false | some w ↦ w == ws ]
    && (is_parent u.role && not (is_some u.deleted_at))

-- `isSameCalendarDay`
unfoldable pub is_same_calendar_day : ℕ → ℕ → Bool
unfolding utc_day_start
is_same_calendar_day a b = utc_day_start a == utc_day_start b

-- `normalizeDateOfBirth`: noon of the day; `none` for what is no date.
unfoldable pub normalize_date_of_birth : Option ℕ → Option ℕ
unfolding utc_day_start
normalize_date_of_birth none = none
normalize_date_of_birth (some t) = some (utc_day_start t + 12 * 60 * 60 * 1000)

abbrev pub new_account : ℕ → Option ℕ → String → String → String → Role → Option ℕ → Account
new_account id ws name email hash role profile = record {
  id = id;
  workspace_id = ws;
  name = name;
  email = email;
  password_hash = hash;
  role = role;
  child_profile_id = profile;
  public_key = none;
  private_key_envelope = none;
  recovery_key_envelope = none;
  must_change_password = false;
  deleted_at = none;
}

module _ (s : Store) where
  -- `workspaceHasParentB`
  unfoldable pub workspace_has_parent_b : s.Table Account → ℕ → Bool
  workspace_has_parent_b users ws = is_some (s.find_first (holds parent_b ws) users)

  -- `listParentUserIds`
  unfoldable pub list_parent_user_ids : s.Table Account → ℕ → List ℕ
  list_parent_user_ids users ws = map (λ u. u.id) (s.find_many (is_active_parent ws) users)

  -- `assertParentInviteJoinAllowed`
  unfoldable pub assert_parent_invite_join_allowed :
      s.Table Account → ℕ → Option Workspace → Result (Unit {0})
  unfolding workspace_has_parent_b
  assert_parent_invite_join_allowed users now none = err workspace_not_found
  assert_parent_invite_join_allowed users now (some w) = do
    throw_if (workspace_has_parent_b users w.id) parent_already_joined
    throw_if (is_parent_invite_expired now w) invite_expired
    ok tt

  -- `findUnique({ where: { email } })`
  abbrev pub email_taken : s.Table Account → String → Bool
  email_taken users email = is_some (s.find_first (λ u. str_eq u.email email) users)

  -- `linkedAccount` of a child.
  abbrev pub linked_account : s.Table Account → ℕ → Option Account
  linked_account users profile =
      s.find_first (λ u. elim u.child_profile_id [ none ↦ false | some c ↦ c == profile ]) users

  abbrev pub add_user : JoinDb s → Account → Account × JoinDb s
  add_user db u = (u, record db { users = s.create u db.users })

  -- `registerUser`, with the workspace that `createWorkspace` has made.
  unfoldable pub register_with :
      Platform
      → JoinDb s
      → Workspace
      → ℕ
      → String
      → String
      → String
      → Payload
      → ℕ
      → String
      → Result (Account × JoinDb s)
  unfolding validate_required_consents save_registration_consents
  register_with p db workspace id name email password consents now ip_hash = do
    validate_required_consents consents
    throw_if (email_taken db.users email) email_in_use
    let u = new_account id (some workspace.id) name email (p.hash password) parent_a none
    ok (
      u,
      record db {
        workspaces = s.create workspace db.workspaces;
        users = s.create u db.users;
        consents = save_registration_consents s id consents now ip_hash db.consents;
      },
    )

  -- The parent's branch of `joinWorkspace`, behind the search for the invite code.
  unfoldable pub join_as_parent :
      Platform
      → JoinDb s
      → ℕ
      → ℕ
      → String
      → String
      → String
      → Option Workspace
      → Result (Account × JoinDb s)
  unfolding assert_parent_invite_join_allowed
  join_as_parent p db id now name email password none = err workspace_not_found
  join_as_parent p db id now name email password (some w) = do
    assert_parent_invite_join_allowed db.users now (some w)
    ok (add_user db (new_account id (some w.id) name email (p.hash password) parent_b none))

  -- The child's branch.
  unfoldable pub join_as_child :
      Platform
      → JoinDb s
      → ℕ
      → Option ℕ
      → String
      → String
      → String
      → Option Workspace
      → Result (Account × JoinDb s)
  join_as_child p db id profile name email password none = err workspace_not_found
  join_as_child p db id profile name email password (some w) = do
    c ← or_throw profile child_profile_required
    row ←
        or_throw (s.find_first (λ r. r.id == c && r.workspace_id == w.id) db.children)
          child_not_found
    throw_if (is_some (linked_account db.users row.id)) child_profile_taken
    ok (add_user db (new_account id (some w.id) name email (p.hash password) child (some c)))

  -- `joinWorkspace`; a child's code decides which branch is taken.
  unfoldable pub join_workspace :
      Platform
      → JoinDb s
      → ℕ
      → ℕ
      → String
      → Option String
      → Option ℕ
      → String
      → String
      → String
      → Result (Account × JoinDb s)
  unfolding join_as_parent join_as_child
  join_workspace p db id now invite_code none profile name email password = do
    throw_if (email_taken db.users email) email_in_use
    join_as_parent p db id now name email password
        (s.find_first (λ w. str_eq w.invite_code invite_code) db.workspaces)
  join_workspace p db id now invite_code (some child_code) profile name email password = do
    throw_if (email_taken db.users email) email_in_use
    join_as_child p db id profile name email password
        (s.find_first (λ w. str_eq w.child_invite_code child_code) db.workspaces)

  -- The one child of a list with a date of birth.
  abbrev pub only_match : List ChildProfile → Result ChildProfile
  only_match [] = err child_dob_mismatch
  only_match (c ∷ []) = ok c
  only_match _ = err ambiguous_child_profile

  -- `resolveChildProfileForAccess`: a child's own code, or a workspace's code and the date of birth.
  unfoldable pub resolve_child_profile :
      JoinDb s → ℕ → Option Workspace → Option ChildProfile → Result ChildProfile
  unfolding is_same_calendar_day
  resolve_child_profile db dob workspace (some c) = do
    throw_if (not (is_same_calendar_day c.date_of_birth dob)) child_dob_mismatch
    ok c
  resolve_child_profile db dob none none = err invalid_invite
  resolve_child_profile db dob (some w) none = only_match (
      filter (λ r. is_same_calendar_day r.date_of_birth dob)
        (s.find_many (λ r. r.workspace_id == w.id) db.children))

  -- `authenticateChildAccess` once the profile is found: sign in to its account, or make one.
  unfoldable pub enter_child :
      Platform
      → Labels
      → JoinDb s
      → ℕ
      → String
      → Option String
      → ChildProfile
      → Option Account
      → Result (Account × JoinDb s)
  enter_child p labels db id password name c (some u) = do
    throw_if (is_some u.deleted_at) invalid_credentials
    throw_if (not (p.compare password u.password_hash)) invalid_credentials
    ok (u, db)
  enter_child p labels db id password name c none = do
    n ← or_throw name child_name_required
    throw_if (email_taken db.users (labels.child_account_email c.id)) child_profile_taken
    ok (
        add_user db (
          new_account id (some c.workspace_id) n (labels.child_account_email c.id) (p.hash password)
            child (some c.id)))

  -- `authenticateChildAccess`
  unfoldable pub authenticate_child_access :
      Platform
      → Labels
      → JoinDb s
      → ℕ
      → String
      → Option ℕ
      → String
      → Option String
      → Result (Account × JoinDb s)
  unfolding resolve_child_profile enter_child normalize_date_of_birth
  authenticate_child_access p labels db id code date_of_birth password name = do
    dob ← or_throw (normalize_date_of_birth date_of_birth) invalid_date_of_birth
    c ←
        resolve_child_profile db dob
          (s.find_first (λ w. str_eq w.child_invite_code code) db.workspaces)
          (s.find_first (λ r. elim r.invite_code [ none ↦ false | some k ↦ str_eq k code ])
            db.children)
    enter_child p labels db id password name c (linked_account db.users c.id)
