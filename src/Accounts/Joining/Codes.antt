-- ===== src/Accounts/Joining/Codes.antt =====
-- Invite codes: drawn until one is free, a bounded number of times.
use coparentes_backend.Common.{
  Result, All, Option-cases, subst, ◌≤◌, ==_iff, ℕ, zero, suc, ◌+◌, ◌*◌, ◌<◌, ◌≡◌, refl, inl, inr,
  Bool, true, false, ◌||◌, none, some, String, str_eq, arith, is_some, ◌==◌, Bool-cases,
  if◌then◌else◌,
}
use coparentes_backend.Common.Store.{Store, Finds}
use coparentes_backend.Consents.{Payload}
use coparentes_backend.Accounts.{Account, Platform}
use coparentes_backend.Accounts.Joining.{JoinDb, register_with, Workspace, ChildProfile}

-- The loop of `generateUniqueParentInviteCode` and `generateUniqueChildInviteCode`: the last code is not looked up.
unfoldable pub draw : (String → Bool) → (ℕ → String) → ℕ → ℕ → String
draw taken codes k zero = codes k
draw taken codes k (suc attempts) =
    let rest = draw taken codes (suc k) attempts in if taken (codes k) then rest else codes k

-- The loop of `createWorkspace`, which draws a code again where it is taken.
unfoldable pub draw_pair :
    (String → Bool) → (String → Bool) → (ℕ → String) → ℕ → ℕ → String → String → String × String
draw_pair invite_taken child_taken codes k zero invite child_invite = (invite, child_invite)
draw_pair invite_taken child_taken codes k (suc attempts) invite child_invite =
    let again =
      draw_pair invite_taken child_taken codes (2 + k) attempts
        (if invite_taken invite then codes k else invite)
        (if child_taken child_invite then codes (1 + k) else child_invite) in
    if invite_taken invite || child_taken child_invite then again else (invite, child_invite)

-- The drawn code is free where one of the codes that are looked up is.
draw_free :
    (taken : String → Bool) (codes : ℕ → String) (k attempts j : ℕ)
    → k ≤ j
    → j < k + attempts
    → taken (codes j) ≡ false
    → taken (draw taken codes k attempts) ≡ false
unfolding draw
draw_free taken codes k zero j le lt e = absurd (omega (arith, le, lt))
draw_free taken codes k (suc attempts) j le lt e = elim (Bool-cases (taken (codes k))) [
  | inr free ↦ rw (free, free) refl
  | inl hit ↦ elim (Bool-cases (k == j)) [
    | inl same ↦ absurd (cc (hit, (==_iff k j).0 same, e))
    | inr later ↦
        rw hit (
          draw_free taken codes (suc k) attempts j (ground (arith, le, later)) (omega (arith, lt))
            e)
  ]
]

or_false : (a b : Bool) → (a || b) ≡ false → (a ≡ false) × (b ≡ false)
or_false true b e = cc
or_false false b e = (refl, e)

module _ (s : Store) where
  abbrev pub invite_taken : s.Table Workspace → String → Bool
  invite_taken ws code = is_some (s.find_first (λ w. str_eq w.invite_code code) ws)

  abbrev pub child_invite_taken : s.Table Workspace → String → Bool
  child_invite_taken ws code = is_some (s.find_first (λ w. str_eq w.child_invite_code code) ws)

  abbrev pub on_child : s.Table ChildProfile → String → Bool
  on_child cs code =
      is_some (s.find_first (λ c. elim c.invite_code [ none ↦ false | some k ↦ str_eq k code ]) cs)

  -- `generateUniqueParentInviteCode`
  unfoldable pub generate_unique_parent_invite_code : s.Table Workspace → (ℕ → String) → String
  unfolding draw
  generate_unique_parent_invite_code ws codes = draw (invite_taken ws) codes 0 5

  -- `generateUniqueChildInviteCode`
  unfoldable pub generate_unique_child_invite_code :
      s.Table Workspace → s.Table ChildProfile → (ℕ → String) → String
  unfolding draw
  generate_unique_child_invite_code ws cs codes =
      draw (λ c. on_child cs c || (invite_taken ws c || child_invite_taken ws c)) codes 0 8

  -- `parentInviteExpiresAt`, with the configured hours.
  abbrev pub parent_invite_expires_at : ℕ → ℕ → ℕ
  parent_invite_expires_at ttl_hours now = now + ttl_hours * 60 * 60 * 1000

  -- The row that `createWorkspace` writes; two codes are drawn before its loop.
  unfoldable pub create_workspace :
      s.Table Workspace → ℕ → String → ℕ → ℕ → (ℕ → String) → Workspace
  unfolding draw_pair
  create_workspace ws id name ttl_hours now codes =
      let drawn =
        draw_pair (invite_taken ws) (child_invite_taken ws) codes 2 5 (codes 0) (codes 1) in
      record {
        id = id;
        name = name;
        invite_code = drawn.0;
        invite_code_expires_at = some (parent_invite_expires_at ttl_hours now);
        child_invite_code = drawn.1;
      }

  -- `refreshParentInviteCode`
  unfoldable pub refresh_parent_invite_code :
      s.Table Workspace → ℕ → ℕ → ℕ → (ℕ → String) → s.Table Workspace
  unfolding generate_unique_parent_invite_code
  refresh_parent_invite_code ws id ttl_hours now codes =
      s.update_many (λ w. w.id == id)
        (λ w. record w {
          invite_code = generate_unique_parent_invite_code ws codes;
          invite_code_expires_at = some (parent_invite_expires_at ttl_hours now);
        })
        ws

  -- No child and no workspace has the code.
  abbrev pub IsFree : s.Table Workspace → s.Table ChildProfile → String → Type 0
  IsFree ws cs code =
      All (λ c. (elim c.invite_code [ none ↦ false | some k ↦ str_eq k code ]) ≡ false) (s.rows cs)
      × All (λ w. str_eq w.invite_code code ≡ false) (s.rows ws)
      × All (λ w. str_eq w.child_invite_code code ≡ false) (s.rows ws)

  unfound :
      {Row : Type 0} (p : Row → Bool) (t : s.Table Row)
      → is_some (s.find_first p t) ≡ false
      → All (λ r. p r ≡ false) (s.rows t)
  unfound p t e = elim (Option-cases (s.find_first p t)) [
    | inl none_found ↦ subst (Finds p (s.rows t)) none_found (s.find_first-Finds p t)
    | inr (r, found) ↦ absurd (cc (rw found at e))
  ]

  -- The code that `generateUniqueChildInviteCode` returns is no child's code and no workspace's code of either kind, where one of the
  -- first eight codes that it draws is none.
  pub child_code-IsFree :
      (ws : s.Table Workspace) (cs : s.Table ChildProfile) (codes : ℕ → String) (i : ℕ)
      → i < 8
      → (on_child cs (codes i) || (invite_taken ws (codes i) || child_invite_taken ws (codes i)))
        ≡ false
      → IsFree ws cs (generate_unique_child_invite_code ws cs codes)
  unfolding generate_unique_child_invite_code
  child_code-IsFree ws cs codes i lt e =
      let taken : String → Bool =
        λ c. on_child cs c || (invite_taken ws c || child_invite_taken ws c) in
      let free = draw_free taken codes 0 8 i (omega arith) lt e in
      let parts = or_false _ _ free in
      let rest = or_false _ _ parts.1 in
      (unfound _ cs parts.0, unfound _ ws rest.0, unfound _ ws rest.1)

  -- `registerUser`: the ids are those of the new workspace and the new account.
  unfoldable pub register_user :
      Platform
      → JoinDb s
      → ℕ
      → String
      → ℕ
      → (ℕ → String)
      → ℕ
      → String
      → String
      → String
      → Payload
      → ℕ
      → String
      → Result (Account × JoinDb s)
  unfolding create_workspace register_with
  register_user p db ws workspace_name ttl_hours codes id name email password consents now ip_hash =
      register_with s p db (create_workspace db.workspaces ws workspace_name ttl_hours now codes) id
        name email password consents now ip_hash
