-- ===== src/Invites/Life.antt =====
-- Runs of all operations that write accounts, with invitations.
use mathlib.Core.List.{Memᴰ}
use coparentes_backend.Common.{
  ℕ, ◌+◌, ◌≤◌, ◌≡◌, ◌≢◌, refl, ap, subst, inl, inr, Bool, true, false, not, ◌&&◌, some, String,
  str_eq, List, [], ◌∷◌, count, length, length-filter, ◌==◌, ==_iff, Bool-cases, Option-cases,
  if◌then◌else◌, Result-cases, ltb, ok, ok_injective, arith, is_some,
}
use coparentes_backend.Common.Store.{Store, update_rows}
use coparentes_backend.Common.Rows.{mem-update_rows_hit, mem-update_rows}
use coparentes_backend.Common.Rows.Unique.{count_two, unique_eq}
use coparentes_backend.Custody.Pattern.{
  Role, parent_a, parent_b, child, observer, same_role, is_parent,
}
use coparentes_backend.Accounts.{Account}
use coparentes_backend.Accounts.Joining.{JoinDb, Workspace, holds, list_parent_user_ids}
use coparentes_backend.Accounts.Family.{holds_in, one_closed, in_workspace}
use coparentes_backend.Accounts.Parents.{IsSmall, IsSmall-Keeps, length-parents}
use coparentes_backend.Accounts.Reach.{Step, Step-Keeps}
use coparentes_backend.Invites.{
  EmailInvite, InviteDb, is_pending, expire, accept_open, is_member, has_id, has_token, move_in,
  send_invite, Acceptance, refused, lapsed, joined, tables_after, accept_invite, accept_found,
}
use coparentes_backend.Invites.Accepting.{accept-Accepts}

role_le_member :
    (b : Bool) (r : Role) (d : Bool)
    → (if b && (same_role r parent_a && d) then 1 else 0)
        + (if b && (same_role r parent_b && d) then 1 else 0)
      ≤ (if b && d then 1 else 0)
role_le_member b parent_a d = ground arith
role_le_member b parent_b d = ground arith
role_le_member b child d = ground arith
role_le_member b observer d = ground arith

at_most_one : (b : Bool) → (if b then 1 else 0) ≤ 1
at_most_one b = ground arith

-- One who moves in becomes one parent more at most.
moved_parents :
    (ws w id : ℕ) (us : List Account)
    → count (holds parent_a w) (update_rows (has_id id) (move_in ws) us)
        + count (holds parent_b w) (update_rows (has_id id) (move_in ws) us)
      ≤ count (is_member w) us + count (has_id id) us
moved_parents ws w id [] = omega arith
moved_parents ws w id (u ∷ us) =
    let rest = moved_parents ws w id us in
    let own = role_le_member (in_workspace w u) u.role (not (is_some u.deleted_at)) in
    let new = role_le_member (ws == w) parent_b (not (is_some u.deleted_at)) in
    elim (Bool-cases (has_id id u)) [
      | inl e ↦ rw e (omega (arith, rest, new, at_most_one (ws == w && not (is_some u.deleted_at))))
      | inr e ↦ rw e (omega (arith, rest, own))
    ]

-- Another workspace loses what it loses.
moved_elsewhere :
    (role : Role) (ws w : ℕ) (u : Account) → (ws == w) ≡ false → holds role w (move_in ws u) ≡ false
moved_elsewhere role ws w u e = ground (arith, e)

never_parent_a : (ws w : ℕ) (u : Account) → holds parent_a w (move_in ws u) ≡ false
never_parent_a ws w u = ground arith

IsSmall-moved :
    (ws id : ℕ) (us : List Account)
    → IsSmall us
    → count (has_id id) us ≤ 1
    → count (is_member ws) us ≤ 1
    → IsSmall (update_rows (has_id id) (move_in ws) us)
IsSmall-moved ws id us h one few =
    let a_falls =
      λ (w : ℕ). one_closed parent_a w (has_id id) (move_in ws) us (never_parent_a ws w) in
    record {
      one_a = λ w. omega (arith, a_falls w, h.one_a w);
      two = λ w. elim (Bool-cases (ws == w)) [
        | inr other ↦
            let b_falls =
              one_closed parent_b w (has_id id) (move_in ws) us
                (λ u. moved_elsewhere parent_b ws w u other) in
            omega (arith, a_falls w, b_falls, h.two w)
        | inl same ↦
            let members_one : count (is_member w) us ≤ 1 =
              subst (λ k. count (is_member k) us ≤ 1) ((==_iff ws w).0 same) few in
            omega (arith, moved_parents ws w id us, members_one, one)
      ];
    }

module _ (s : Store) where
  -- One operation on accounts or invitations. An account's id is its primary key, and the caller of an acceptance is in the table.
  pub data LifeStep : InviteDb s → InviteDb s → Type 0 where
    works :
        (db : InviteDb s) (f : JoinDb s)
        → Step s db.families f
        → LifeStep db (record db { families = f })
    sends :
        (db db' : InviteDb s) (user : Account) (email token : String) (id days ttl_hours now : ℕ)
        (codes : ℕ → String) (i : EmailInvite)
        → send_invite s db user email id token days ttl_hours now codes ≡ ok (i, db')
        → LifeStep db db'
    answers :
        (db : InviteDb s) (user : Account) (token : String) (now : ℕ)
        → count (has_id user.id) (s.rows db.families.users) ≤ 1
        → LifeStep db (tables_after s db (accept_invite s db user token now))

  pub data Life (start : InviteDb s) : InviteDb s → Type 0 where
    begin : Life start start
    step : {db db' : InviteDb s} → Life start db → LifeStep db db' → Life start db'

  abbrev pub StaysSmall : InviteDb s → Type 0
  StaysSmall db = IsSmall (s.rows db.families.users)

  lapsed_families :
      (db db' : InviteDb s) (user : Account) (token : String) (now : ℕ)
      → accept_invite s db user token now ≡ lapsed db'
      → db.families ≡ db'.families
  unfolding accept_invite accept_found
  lapsed_families db db' user token now e =
      elim (Option-cases (s.find_first (has_token token) db.invites)) [
        | inl gone ↦ absurd (cc (rw gone at e))
        | inr (i, found) ↦ elim (Bool-cases (is_pending i.status)) [
          | inr closed ↦ absurd (cc (rw (found, closed) at e))
          | inl pending ↦ elim (Bool-cases (ltb i.expires_at now)) [
            | inl late ↦
                let same : record db {
                  invites = s.update_many (λ r. r.id == i.id) expire db.invites;
                }
                    ≡ db' =
                  cc (rw (found, pending, late) at e) in
                ap (λ (d : InviteDb s). d.families) same
            | inr live ↦ elim (Result-cases (accept_open s db user i now)) [
              | inl (c, bad) ↦ absurd (cc (rw (found, pending, live, bad) at e))
              | inr (d, fine) ↦ absurd (cc (rw (found, pending, live, fine) at e))
            ]
          ]
        ]
      ]

  ended-StaysSmall :
      (db : InviteDb s) (user : Account) (token : String) (now : ℕ) (o : Acceptance s)
      → accept_invite s db user token now ≡ o
      → count (has_id user.id) (s.rows db.families.users) ≤ 1
      → StaysSmall db
      → StaysSmall (tables_after s db o)
  ended-StaysSmall db user token now (refused code) e one h = h
  ended-StaysSmall db user token now (lapsed db') e one h =
      subst (λ f. IsSmall (s.rows f.users)) (lapsed_families db db' user token now e) h
  ended-StaysSmall db user token now (joined db') e one h =
      let a = accept-Accepts s db db' user token now e in
      let few : count (is_member a.ws) (s.rows db.families.users) ≤ 1 =
        rw (s.find_many-rows, length-filter) at a.room.1 in
      rw a.users (IsSmall-moved a.ws user.id (s.rows db.families.users) h one few)

  sent_users :
      (db db' : InviteDb s) (user : Account) (email token : String) (id days ttl_hours now : ℕ)
      (codes : ℕ → String) (i : EmailInvite)
      → send_invite s db user email id token days ttl_hours now codes ≡ ok (i, db')
      → db.families.users ≡ db'.families.users
  unfolding send_invite
  sent_users db db' user email token id days ttl_hours now codes i e =
      elim (Bool-cases (is_parent user.role)) [
        | inr no_parent ↦ absurd (cc (rw no_parent at e))
        | inl parent ↦ elim (Bool-cases (str_eq email user.email)) [
          | inl self ↦ absurd (cc (rw (parent, self) at e))
          | inr other ↦ elim (Option-cases user.workspace_id) [
            | inl homeless ↦ absurd (cc (rw (parent, other, homeless) at e))
            | inr (ws, home) ↦
                elim (Option-cases
                  (s.find_first (λ (w : Workspace). w.id == ws) db.families.workspaces)) [
                    | inl gone ↦ absurd (cc (rw (parent, other, home, gone) at e))
                    | inr (w, found) ↦
                        ap (λ (x : EmailInvite × InviteDb s). x.1.families.users)
                          (ok_injective (rw (parent, other, home, found) at e))
                  ]
          ]
        ]
      ]

  LifeStep-StaysSmall : (db db' : InviteDb s) → LifeStep db db' → StaysSmall db → StaysSmall db'
  LifeStep-StaysSmall db db' (works _ f t) h = Step-Keeps s IsSmall IsSmall-Keeps db.families f t h
  LifeStep-StaysSmall db db' (sends _ _ user email token id days ttl_hours now codes i e) h =
      subst (λ us. IsSmall (s.rows us))
        (sent_users db db' user email token id days ttl_hours now codes i e) h
  LifeStep-StaysSmall db db' (answers _ user token now one) h =
      ended-StaysSmall db user token now (accept_invite s db user token now) refl one h

  Life-StaysSmall : (start db : InviteDb s) → StaysSmall start → Life start db → StaysSmall db
  Life-StaysSmall start db h begin = h
  Life-StaysSmall start db' h (step {db} l t) =
      LifeStep-StaysSmall db db' t (Life-StaysSmall start db h l)

  -- After any sequence of registrations, joins, sign-ins of children, removals of children, closings of accounts, and invitations sent and answered, from
  -- tables with at most one active parentA and two active parents in each workspace, each workspace has at most one active parentA, and `listParentUserIds` lists at
  -- most two users of it. The database gives a new workspace an id that no account refers to, and account ids are unique.
  pub Life-parents :
      (start db : InviteDb s)
      → StaysSmall start
      → Life start db
      → (w : ℕ)
      → (count (holds parent_a w) (s.rows db.families.users) ≤ 1)
        × (length (list_parent_user_ids s db.families.users w) ≤ 2)
  unfolding list_parent_user_ids
  Life-parents start db h l w =
      let g = Life-StaysSmall start db h l in
      (g.one_a w, rw (s.find_many-rows, length-parents w (s.rows db.families.users)) (g.two w))

  -- An invitation of a parentB leads to a second parentB: where a call of `POST /accept` moves the caller in, and the inviter that the invitation
  -- names is the active parentB of the workspace, the workspace has two active parentBs afterwards. The caller is in the table and active; tokens and ids of accounts
  -- are unique, and the caller is not the inviter.
  pub accept_second_parent_b :
      (db db' : InviteDb s) (user inviter : Account) (i : EmailInvite) (token : String) (ws now : ℕ)
      → accept_invite s db user token now ≡ joined db'
      → count (has_token token) (s.rows db.invites) ≤ 1
      → Memᴰ i (s.rows db.invites)
      → has_token token i ≡ true
      → count (has_id i.inviter_id) (s.rows db.families.users) ≤ 1
      → Memᴰ inviter (s.rows db.families.users)
      → inviter.id ≡ i.inviter_id
      → holds parent_b ws inviter ≡ true
      → Memᴰ user (s.rows db.families.users)
      → is_some user.deleted_at ≡ false
      → user.id ≢ inviter.id
      → 2 ≤ count (holds parent_b ws) (s.rows db'.families.users)
  accept_second_parent_b db db' user inviter i token ws now e one_token mi ti one_inviter mv idv b
        mu active other =
      let a = accept-Accepts s db db' user token now e in
      let us = s.rows db.families.users in
      let same_invite : a.invite ≡ i =
        unique_eq (has_token token) (s.rows db.invites) one_token a.listed mi a.named ti in
      let by : has_id i.inviter_id a.inviter ≡ true =
        subst (λ (j : EmailInvite). has_id j.inviter_id a.inviter ≡ true) same_invite
          a.invited_by.1 in
      let same : a.inviter ≡ inviter =
        unique_eq (has_id i.inviter_id) us one_inviter a.invited_by.0 mv by ((==_iff _ _).1 idv) in
      let home : inviter.workspace_id ≡ some a.ws =
        subst (λ (u : Account). u.workspace_id ≡ some a.ws) same a.home in
      let there : a.ws ≡ ws = holds_in parent_b inviter a.ws ws home b in
      let self : has_id user.id user ≡ true = (==_iff _ _).1 refl in
      let not_self : has_id user.id inviter ≡ false = ground (arith, other) in
      let moved = mem-update_rows_hit (has_id user.id) (move_in a.ws) us self mu in
      let stays = mem-update_rows (has_id user.id) (move_in a.ws) us not_self mv in
      rw a.users (
        count_two (holds parent_b ws) (update_rows (has_id user.id) (move_in a.ws) us) moved stays
          (held_after a.ws ws user there active) b (λ e. other (ap (λ (u : Account). u.id) e)))
    where
      held_after :
          (v w : ℕ) (u : Account)
          → v ≡ w
          → is_some u.deleted_at ≡ false
          → holds parent_b w (move_in v u) ≡ true
      held_after v w u same active = ground (arith, same, active)
