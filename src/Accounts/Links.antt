-- ===== src/Accounts/Links.antt =====
-- What a password-reset link is good for.
use mathlib.Core.List.{Memᴰ}
use coparentes_backend.Common.{
  ◌<◌, eq_iff, ℕ, ◌+◌, ◌≤◌, ◌≡◌, refl, sym, ap, subst, inl, inr, Bool, true, false, not, ◌&&◌,
  Option, none, some, String, str_eq, List, [], ◌∷◌, ◌++◌, arith, All, filter, count, ◌==◌,
  Bool-cases, Option-cases, ok, err, ok_injective, ◌∙◌, invalid_or_expired_token,
}
use coparentes_backend.Common.Store.{Store, Finds, find, update_rows}
use coparentes_backend.Common.Rows.{All-Mem, mem-filter_of}
use coparentes_backend.Common.Rows.Unique.{Finds-find, find-update_rows, count-update_rows}
use coparentes_backend.Sessions.{Session}
use coparentes_backend.Accounts.{ResetToken, AccountDb, Platform}
use coparentes_backend.Accounts.Passwords.{
  is_live, is_unused, mark_token, end_sessions, confirm_claimed, confirm_password_reset, link_row,
  issue_link,
}

abbrev pub has_hash : String → ResetToken → Bool
has_hash h t = str_eq t.token_hash h

-- Once the live rows of a hash are marked, none is live, then and later.
none_live :
    (h : String) (now k : ℕ) (ts : List ResetToken)
    → All (λ t. is_live h (now + k) t ≡ false) (update_rows (is_live h now) (mark_token now) ts)
none_live h now k [] = tt
none_live h now k (t ∷ ts) = (ground arith, none_live h now k ts)

pub Finds-none :
    {Row : Type 0} (p : Row → Bool) (rs : List Row) (o : Option Row)
    → All (λ r. p r ≡ false) rs
    → Finds p rs o
    → o ≡ none
Finds-none p rs none h f = refl
Finds-none p rs (some r) h f = absurd (cc (f.0, All-Mem (λ r. p r ≡ false) h f.1))

gone_of :
    (user : ℕ) (xs : List Session)
    → All (λ x. (x.user_id == user) ≡ false) (filter (λ x. not (x.user_id == user)) xs)
gone_of user [] = tt
gone_of user (x ∷ xs) = elim (Bool-cases (x.user_id == user)) [
  | inl own ↦ rw own (gone_of user xs)
  | inr other ↦ rw other (other, gone_of user xs)
]

module _ (s : Store) (p : Platform) where
  -- What a confirmation that returns found and leaves.
  pub record Confirms (db db' : AccountDb s) (h new : String) (now : ℕ) : Type 0 where
    pub token : ResetToken
    pub listed : Memᴰ token (s.rows db.reset_tokens)
    pub hashed : token.token_hash ≡ h
    pub unused : token.used_at ≡ none
    pub in_time : now < token.expires_at
    pub users :
        s.rows db'.users
        ≡ update_rows
            (λ u. u.id == token.user_id)
            (λ u. record u { password_hash = p.hash new; must_change_password = false })
            (s.rows db.users)
    pub sessions : All (λ x. (x.user_id == token.user_id) ≡ false) (s.rows db'.sessions)
    pub again :
        (k : ℕ) (other : String)
        → confirm_password_reset s p db' h other (now + k) ≡ err invalid_or_expired_token

  unused_of : (t : ResetToken) → is_unused t ≡ true → t.used_at ≡ none
  unused_of t e = elim (Option-cases t.used_at) [
    | inl never ↦ never
    | inr (k, used) ↦ absurd (cc (rw used at e))
  ]

  no_second_use :
      (db db' : AccountDb s) (h other : String) (now k : ℕ)
      → s.rows db'.reset_tokens
        ≡ update_rows (is_live h now) (mark_token now) (s.rows db.reset_tokens)
      → confirm_password_reset s p db' h other (now + k) ≡ err invalid_or_expired_token
  unfolding confirm_password_reset
  no_second_use db db' h other now k after =
      let gone : s.find_first (is_live h (now + k)) db'.reset_tokens ≡ none =
        Finds-none (is_live h (now + k)) (s.rows db'.reset_tokens) _
          (rw after (none_live h now k (s.rows db.reset_tokens)))
          (s.find_first-Finds _ db'.reset_tokens) in
      rw gone refl

  -- The row that the hash finds after the marking is the live row, marked.
  claimed_row :
      (t : s.Table ResetToken) (h : String) (now : ℕ) (x : ResetToken)
      → count (has_hash h) (s.rows t) ≤ 1
      → Memᴰ x (s.rows t)
      → is_live h now x ≡ true
      → s.find_first (has_hash h) (s.update_many (is_live h now) (mark_token now) t)
        ≡ some (mark_token now x)
  claimed_row t h now x one m live =
      let own : has_hash h x ≡ true = ground (arith, live) in
      let before : find (has_hash h) (s.rows t) ≡ some x =
        sym (Finds-find (has_hash h) (s.rows t) (some x) one (own, m)) in
      let still : count (has_hash h) (s.rows (s.update_many (is_live h now) (mark_token now) t))
          ≤ 1 =
        rw
          (
            s.rows-update_many,
            count-update_rows (has_hash h) (is_live h now) (mark_token now) (s.rows t) (λ r. refl),
          )
          one in
      Finds-find (has_hash h) _ _ still (s.find_first-Finds _ _)
      ∙ rw
          (
            s.rows-update_many,
            find-update_rows (has_hash h) (is_live h now) (mark_token now) (s.rows t) (λ r. refl),
            before,
            live,
          )
          refl

  -- A call of `confirmPasswordReset` that returns found a token with the hash that was not used and had not expired. It writes the hash of
  -- the new password to the token's user, who need not change it any more, and to no other, and leaves that user no session; every later
  -- call with the token, whatever the password, throws `invalid_or_expired_token`. At most one token has the hash.
  pub confirm-Confirms :
      (db db' : AccountDb s) (h new : String) (now : ℕ)
      → count (has_hash h) (s.rows db.reset_tokens) ≤ 1
      → confirm_password_reset s p db h new now ≡ ok db'
      → Confirms db db' h new now
  unfolding confirm_password_reset confirm_claimed end_sessions
  confirm-Confirms db db' h new now one e =
      elim (Option-cases (s.find_first (is_live h now) db.reset_tokens)) [
        | inl dead ↦ absurd (cc (rw dead at e))
        | inr (x, found) ↦
            let (live, m) =
              subst (Finds (is_live h now) (s.rows db.reset_tokens)) found
                (s.find_first-Finds _ db.reset_tokens) in
            let claimed = claimed_row db.reset_tokens h now x one m live in
            let r = ok_injective (rw (found, claimed) at e) in
            record {
              token = x;
              listed = m;
              hashed = (eq_iff _ _).0 (ground (arith, live));
              unused = unused_of x (ground (arith, live));
              in_time = ground (arith, live);
              users = rw (sym (ap (λ (d : AccountDb s). d.users) r)) (s.rows-update_many _ _ _);
              sessions =
                  rw (sym (ap (λ (d : AccountDb s). d.sessions) r), s.rows-delete_many)
                    (gone_of x.user_id (s.rows db.sessions));
              again = λ k other. no_second_use db db' h other now k (
                  rw (sym (ap (λ (d : AccountDb s). d.reset_tokens) r)) (s.rows-update_many _ _ _));
            }
      ]

  kept_links :
      (user id : ℕ) (ts : List ResetToken)
      → All
          (λ t. (t.user_id == user && (is_unused t && not (t.id == id))) ≡ false)
          (filter (λ t. not (t.user_id == user && (is_unused t && not (t.id == id)))) ts)
  kept_links user id [] = tt
  kept_links user id (t ∷ ts) =
      elim (Bool-cases (t.user_id == user && (is_unused t && not (t.id == id)))) [
        | inl old ↦ rw old (kept_links user id ts)
        | inr kept ↦ rw kept (kept, kept_links user id ts)
      ]

  -- After a reset link is sent to a user, it is in the table, and it is the only link of the user that is not used.
  pub issue_link_only :
      (db : AccountDb s) (id : ℕ) (h : String) (user now : ℕ)
      → let after = s.rows (issue_link s p db id h user now true).1.reset_tokens in
        Memᴰ (link_row id h user now) after
        × All (λ t. (t.user_id == user && (is_unused t && not (t.id == id))) ≡ false) after
  unfolding issue_link
  issue_link_only db id h user now =
      rw (s.rows-delete_many, s.rows-create)
        (
          mem-filter_of _ (s.rows db.reset_tokens ++ link_row id h user now ∷ []) (ground arith)
              (mem_last (s.rows db.reset_tokens)),
          kept_links user id (s.rows db.reset_tokens ++ link_row id h user now ∷ []),
        )
    where
      mem_last : {x : ResetToken} (ts : List ResetToken) → Memᴰ x (ts ++ x ∷ [])
      mem_last [] = Memᴰ.head refl
      mem_last (t ∷ ts) = Memᴰ.tail (mem_last ts)

  -- A row that is listed and passes is found.
  pub found_one :
      (q : ResetToken → Bool) (t : s.Table ResetToken) {x : ResetToken}
      → Memᴰ x (s.rows t)
      → q x ≡ true
      → (y : ResetToken) × (s.find_first q t ≡ some y)
  found_one q t m e = elim (Option-cases (s.find_first q t)) [
    | inr hit ↦ hit
    | inl miss ↦ absurd (
        cc (
          e,
          All-Mem (λ r. q r ≡ false) (subst (Finds q (s.rows t)) miss (s.find_first-Finds q t)) m,
        ))
  ]
