-- ===== src/Invites/Accepting.antt =====
-- What accepting an invitation finds and writes.
use mathlib.Core.List.{Memᴰ}
use coparentes_backend.Common.{
  ℕ, ◌≤◌, ◌≡◌, sym, ap, subst, ◌∙◌, inl, inr, true, false, ◌||◌, some, String, str_eq, ◌==◌, ltb,
  leb, Bool-cases, Option-cases, Result-cases, ok, ok_injective, arith,
}
use coparentes_backend.Common.Store.{Store, Finds, update_rows}
use coparentes_backend.Accounts.{Account}
use coparentes_backend.Invites.{
  EmailInvite, InviteDb, is_pending, has_id, has_token, move_in, mark_accepted, members,
  accepted_db, accept_open, joined, accept_found, accept_invite,
}

module _ (s : Store) where
  -- What a call that moves the caller in found and wrote.
  pub record Accepts (db db' : InviteDb s) (user : Account) (token : String) (now : ℕ)
      : Type 0 where
    pub invite : EmailInvite
    pub inviter : Account
    pub ws : ℕ
    pub listed : Memᴰ invite (s.rows db.invites)
    pub named : has_token token invite ≡ true
    pub open_until : (is_pending invite.status ≡ true) × (ltb invite.expires_at now ≡ false)
    pub addressed : str_eq user.email invite.email ≡ true
    pub invited_by :
        Memᴰ inviter (s.rows db.families.users) × (has_id invite.inviter_id inviter ≡ true)
    pub home : inviter.workspace_id ≡ some ws
    pub room :
        (members s db.families.users user.workspace_id ≤ 1)
        × (members s db.families.users (some ws) ≤ 1)
    pub users :
        s.rows db'.families.users
        ≡ update_rows (has_id user.id) (move_in ws) (s.rows db.families.users)
    pub invites :
        s.rows db'.invites
        ≡ update_rows (λ r. r.id == invite.id) (mark_accepted user.id now) (s.rows db.invites)

  -- The checks on an open invitation, one after the other.
  pub record Opens (db db' : InviteDb s) (user : Account) (i : EmailInvite) (now : ℕ) : Type 0 where
    pub inviter : Account
    pub ws : ℕ
    pub invited_by : Finds (has_id i.inviter_id) (s.rows db.families.users) (some inviter)
    pub home : inviter.workspace_id ≡ some ws
    pub addressed : str_eq user.email i.email ≡ true
    pub room :
        (members s db.families.users user.workspace_id ≤ 1)
        × (members s db.families.users (some ws) ≤ 1)
    pub after : accepted_db s db user i ws now ≡ db'

  room_of : (a b : ℕ) → (ltb 1 a || leb 2 b) ≡ false → (a ≤ 1) × (b ≤ 1)
  room_of a b e = (ground (arith, e), ground (arith, e))

  accept_open-Opens :
      (db db' : InviteDb s) (user : Account) (i : EmailInvite) (now : ℕ)
      → accept_open s db user i now ≡ ok db'
      → Opens db db' user i now
  unfolding accept_open
  accept_open-Opens db db' user i now e =
      elim (Option-cases (s.find_first (has_id i.inviter_id) db.families.users)) [
        | inl gone ↦ absurd (cc (rw gone at e))
        | inr (inviter, found) ↦ elim (Option-cases inviter.workspace_id) [
          | inl homeless ↦ absurd (cc (rw (found, homeless) at e))
          | inr (ws, home) ↦ elim (Bool-cases (str_eq user.email i.email)) [
            | inr other ↦ absurd (cc (rw (found, home, other) at e))
            | inl own ↦
                elim (Bool-cases (
                  ltb 1 (members s db.families.users user.workspace_id)
                  || leb 2 (members s db.families.users (some ws)))) [
                    | inl full ↦ absurd (cc (rw (found, home, own, full) at e))
                    | inr room ↦ record {
                      inviter = inviter;
                      ws = ws;
                      invited_by =
                          subst (Finds (has_id i.inviter_id) (s.rows db.families.users)) found
                            (s.find_first-Finds _ _);
                      home = home;
                      addressed = own;
                      room = room_of _ _ room;
                      after = ok_injective (rw (found, home, own, room) at e);
                    }
                  ]
          ]
        ]
      ]

  pub accept-Accepts :
      (db db' : InviteDb s) (user : Account) (token : String) (now : ℕ)
      → accept_invite s db user token now ≡ joined db'
      → Accepts db db' user token now
  unfolding accept_invite accept_found
  accept-Accepts db db' user token now e =
      elim (Option-cases (s.find_first (has_token token) db.invites)) [
        | inl gone ↦ absurd (cc (rw gone at e))
        | inr (i, found) ↦ elim (Bool-cases (is_pending i.status)) [
          | inr closed ↦ absurd (cc (rw (found, closed) at e))
          | inl pending ↦ elim (Bool-cases (ltb i.expires_at now)) [
            | inl late ↦ absurd (cc (rw (found, pending, late) at e))
            | inr live ↦ elim (Result-cases (accept_open s db user i now)) [
              | inl (c, bad) ↦ absurd (cc (rw (found, pending, live, bad) at e))
              | inr (db2, fine) ↦
                  let same : db2 ≡ db' = cc (rw (found, pending, live, fine) at e) in
                  let o = accept_open-Opens db db2 user i now fine in
                  let after = o.after ∙ same in
                  let (named, listed) =
                    subst (Finds (has_token token) (s.rows db.invites)) found
                      (s.find_first-Finds _ _) in
                  record {
                    invite = i;
                    inviter = o.inviter;
                    ws = o.ws;
                    listed = listed;
                    named = named;
                    open_until = (pending, live);
                    addressed = o.addressed;
                    invited_by = (o.invited_by.1, o.invited_by.0);
                    home = o.home;
                    room = o.room;
                    users =
                        rw (sym (ap (λ (d : InviteDb s). d.families.users) after))
                          (s.rows-update_many _ _ _);
                    invites =
                        rw (sym (ap (λ (d : InviteDb s). d.invites) after))
                          (s.rows-update_many _ _ _);
                  }
            ]
          ]
        ]
      ]
