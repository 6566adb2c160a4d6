-- ===== src/Invites.antt =====
-- Invitations by e-mail (src/routes/invite.js). The handlers stand behind `requireAuth` with the caller's account, addresses
-- are trimmed and in lower case, the server's zone is UTC, and the mail is left out.
pub mod Accepting
pub mod Life
mod Tests
use coparentes_backend.Common.{
  ℕ, ◌+◌, ◌*◌, Bool, true, false, not, ◌&&◌, ◌||◌, Option, none, some, String, str_eq, List, take,
  count, ◌==◌, ltb, leb, is_some, if◌then◌else◌, Result, Code, ok, err, throw_if, or_throw, ◌>>=◌,
  ◌>>◌, cannot_invite_self, invite_not_found, invite_not_active, invite_expired,
  inviter_missing_workspace, invite_email_mismatch, workspace_conflict, user_missing_workspace,
  workspace_not_found, forbidden, record_not_found, length,
}
use mathlib.Core.List.{reverse}
use coparentes_backend.Common.Store.{Store}
use coparentes_backend.Custody.Dates.{add_utc_days}
use coparentes_backend.Custody.Pattern.{parent_b, is_parent}
use coparentes_backend.Accounts.{Account}
use coparentes_backend.Accounts.Joining.{Workspace, JoinDb, is_parent_invite_expired}
use coparentes_backend.Accounts.Joining.Codes.{refresh_parent_invite_code}

-- `EmailInviteStatus`
pub data InviteStatus : Type 0 where
  pending accepted expired : InviteStatus

abbrev pub is_pending : InviteStatus → Bool
is_pending pending = true
is_pending _ = false

pub record EmailInvite : Type 0 where
  pub id : ℕ
  pub workspace_id : ℕ
  pub email : String
  pub token : String
  pub status : InviteStatus
  pub inviter_id : ℕ
  pub accepted_by : Option ℕ
  pub expires_at : ℕ
  pub accepted_at : Option ℕ

pub record InviteDb (s : Store) : Type 0 where
  pub families : JoinDb s
  pub invites : s.Table EmailInvite

abbrev pub invite_row : ℕ → ℕ → String → String → ℕ → ℕ → ℕ → EmailInvite
invite_row id ws email token inviter days now = record {
  id = id;
  workspace_id = ws;
  email = email;
  token = token;
  status = pending;
  inviter_id = inviter;
  accepted_by = none;
  expires_at = add_utc_days now days;
  accepted_at = none;
}

-- `where: { workspaceId, deletedAt: null }`
abbrev pub is_member : ℕ → Account → Bool
is_member ws u =
    elim u.workspace_id [ none ↦ false | some w ↦ w == ws ] && not (is_some u.deleted_at)

-- `where: { workspaceId: null, deletedAt: null }`
abbrev pub is_homeless : Account → Bool
is_homeless u = not (is_some u.workspace_id) && not (is_some u.deleted_at)

abbrev pub has_id : ℕ → Account → Bool
has_id id u = u.id == id

-- `{ workspaceId: inviter.workspaceId, role: 'parentB' }`
abbrev pub move_in : ℕ → Account → Account
move_in ws u = record u { workspace_id = some ws; role = parent_b }

abbrev pub has_token : String → EmailInvite → Bool
has_token token i = str_eq i.token token

abbrev pub expire : EmailInvite → EmailInvite
expire i = record i { status = expired }

abbrev pub mark_accepted : ℕ → ℕ → EmailInvite → EmailInvite
mark_accepted user now i = record i {
  status = accepted;
  accepted_by = some user;
  accepted_at = some now;
}

module _ (s : Store) where
  -- `user.count` of the active users of a workspace, or of none.
  abbrev pub members : s.Table Account → Option ℕ → ℕ
  members users none = length (s.find_many is_homeless users)
  members users (some ws) = length (s.find_many (is_member ws) users)

  -- The workspace's row once its invite code is fresh.
  abbrev pub refreshed : JoinDb s → Workspace → ℕ → ℕ → (ℕ → String) → s.Table Workspace
  refreshed db w ttl_hours now codes =
      if is_parent_invite_expired now w || str_eq w.invite_code ""
      then refresh_parent_invite_code s db.workspaces w.id ttl_hours now codes
      else db.workspaces

  -- `POST /send`, behind `requireParentRole`.
  unfoldable pub send_invite :
      InviteDb s
      → Account
      → String
      → ℕ
      → String
      → ℕ
      → ℕ
      → ℕ
      → (ℕ → String)
      → Result (EmailInvite × InviteDb s)
  unfolding refresh_parent_invite_code add_utc_days
  send_invite db user email id token days ttl_hours now codes = do
    throw_if (not (is_parent user.role)) forbidden
    throw_if (str_eq email user.email) cannot_invite_self
    ws ← or_throw user.workspace_id user_missing_workspace
    w ← or_throw (s.find_first (λ w. w.id == ws) db.families.workspaces) workspace_not_found
    let row = invite_row id ws email token user.id days now
    ok (
      row,
      record {
        families = record db.families { workspaces = refreshed db.families w ttl_hours now codes };
        invites = s.create row db.invites;
      },
    )

  -- The transaction of `POST /accept`.
  abbrev pub accepted_db : InviteDb s → Account → EmailInvite → ℕ → ℕ → InviteDb s
  accepted_db db user i ws now = record {
    families = record db.families {
      users = s.update_many (has_id user.id) (move_in ws) db.families.users;
    };
    invites = s.update_many (λ r. r.id == i.id) (mark_accepted user.id now) db.invites;
  }

  -- `POST /accept` for an invitation that is open: the answer of the checks and of the transaction.
  unfoldable pub accept_open : InviteDb s → Account → EmailInvite → ℕ → Result (InviteDb s)
  accept_open db user i now = do
    inviter ←
        or_throw (s.find_first (has_id i.inviter_id) db.families.users) inviter_missing_workspace
    ws ← or_throw inviter.workspace_id inviter_missing_workspace
    throw_if (not (str_eq user.email i.email)) invite_email_mismatch
    throw_if
        (ltb 1 (members db.families.users user.workspace_id)
          || leb 2 (members db.families.users (some ws)))
        workspace_conflict
    ok (accepted_db db user i ws now)

  -- How `POST /accept` ends: refused, found too late with the invitation marked as expired, or with the caller moved in.
  pub data Acceptance : Type 0 where
    refused : Code → Acceptance
    lapsed joined : InviteDb s → Acceptance

  abbrev pub ended : Result (InviteDb s) → Acceptance
  ended (err code) = refused code
  ended (ok db) = joined db

  abbrev pub tables_after : InviteDb s → Acceptance → InviteDb s
  tables_after db (refused _) = db
  tables_after db (lapsed db') = db'
  tables_after db (joined db') = db'

  -- `POST /accept` behind its search.
  unfoldable pub accept_found : InviteDb s → Account → ℕ → Option EmailInvite → Acceptance
  unfolding accept_open
  accept_found db user now none = refused invite_not_found
  accept_found db user now (some i) =
      if not (is_pending i.status)
      then refused invite_not_active
      else if ltb i.expires_at now
      then lapsed (record db { invites = s.update_many (λ r. r.id == i.id) expire db.invites })
      else ended (accept_open db user i now)

  -- `POST /accept`
  unfoldable pub accept_invite : InviteDb s → Account → String → ℕ → Acceptance
  unfolding accept_found
  accept_invite db user token now =
      accept_found db user now (s.find_first (has_token token) db.invites)

  -- `GET /sent`: the newest twenty, the rows being oldest first.
  unfoldable pub sent_invites : InviteDb s → ℕ → List EmailInvite
  sent_invites db user = take 20 (reverse (s.find_many (λ i. i.inviter_id == user) db.invites))
