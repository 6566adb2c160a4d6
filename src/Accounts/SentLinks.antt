-- ===== src/Accounts/SentLinks.antt =====
-- How long a password-reset link works, and what ends it before.
use mathlib.Core.List.{Memᴰ}
use coparentes_backend.Common.{
  eq_iff, ℕ, ◌+◌, ◌≤◌, ◌<◌, ◌≡◌, refl, inl, inr, Bool, true, false, not, ◌&&◌, ◌⊎◌, String, str_eq,
  List, [], ◌∷◌, ◌++◌, arith, All, All-map, filter, ◌==◌, Bool-cases, ok, err,
  invalid_or_expired_token,
}
use coparentes_backend.Common.Store.{Store}
use coparentes_backend.Common.Rows.{mem-update_rows_hit, mem-append_last, mem-filter_of}
use coparentes_backend.Accounts.{ResetToken, AccountDb, Platform}
use coparentes_backend.Accounts.Passwords.{
  is_live, is_unused, mark_token, confirm_claimed, confirm_password_reset, link_row, issue_link,
}
use coparentes_backend.Accounts.Links.{has_hash, Finds-none, found_one, issue_link_only}

-- A link that is sent: its id, the hash of its token, its user, the time and whether the mail went out.
pub record Sending : Type 0 where
  pub id : ℕ
  pub token_hash : String
  pub user_id : ℕ
  pub at : ℕ
  pub mailed : Bool

-- The older links of a user that a new one deletes.
abbrev is_older : ℕ → ℕ → ResetToken → Bool
is_older user id t = t.user_id == user && (is_unused t && not (t.id == id))

All-kept :
    (P : ResetToken → Type 0) (q : ResetToken → Bool) (ts : List ResetToken)
    → All P ts
    → All P (filter q ts)
All-kept P q [] h = tt
All-kept P q (t ∷ ts) h = elim (Bool-cases (q t)) [
  | inl e ↦ rw e (h.0, All-kept P q ts h.1)
  | inr e ↦ rw e (All-kept P q ts h.1)
]

All-added :
    (P : ResetToken → Type 0) (ts : List ResetToken) (t : ResetToken)
    → All P ts
    → P t
    → All P (ts ++ t ∷ [])
All-added P [] t h e = (e, tt)
All-added P (x ∷ ts) t h e = (h.0, All-added P ts t h.1 e)

-- Where each row with a hash is dropped, none is left.
none_kept :
    (h : String) (dropped : ResetToken → Bool) (ts : List ResetToken)
    → All (λ t. (has_hash h t ≡ false) ⊎ (dropped t ≡ true)) ts
    → All (λ t. has_hash h t ≡ false) (filter (λ t. not (dropped t)) ts)
none_kept h dropped [] a = tt
none_kept h dropped (t ∷ ts) a = elim (Bool-cases (dropped t)) [
  | inl gone ↦ rw gone (none_kept h dropped ts a.1)
  | inr kept ↦ rw kept elim a.0 [
    | inl other ↦ (other, none_kept h dropped ts a.1)
    | inr gone ↦ absurd (cc (kept, gone))
  ]
]

module _ (s : Store) (p : Platform) where
  -- The links are sent one after the other.
  abbrev pub send_all : List Sending → AccountDb s → AccountDb s
  send_all [] db = db
  send_all (x ∷ xs) db = send_all xs (issue_link s p db x.id x.token_hash x.user_id x.at x.mailed).1

  kept_by_other :
      (db : AccountDb s) (row : ResetToken) (x : Sending)
      → (row.user_id == x.user_id) ≡ false
      → (row.id == x.id) ≡ false
      → Memᴰ row (s.rows db.reset_tokens)
      → Memᴰ row
          (s.rows (issue_link s p db x.id x.token_hash x.user_id x.at x.mailed).1.reset_tokens)
  unfolding issue_link
  kept_by_other db row x user id m =
      let kept : not (is_older x.user_id x.id row) ≡ true = rw user refl in
      let there =
        mem-filter_of (λ t. not (is_older x.user_id x.id t)) _ kept
          (mem-append_last (s.rows db.reset_tokens) (link_row x.id x.token_hash x.user_id x.at ∷ [])
            m) in
      elim (Bool-cases x.mailed) [
        | inl sent ↦ rw (sent, s.rows-delete_many, s.rows-create) there
        | inr failed ↦
            let other : not (row.id == x.id) ≡ true = rw id refl in
            rw (failed, s.rows-delete_many, s.rows-delete_many, s.rows-create)
              (mem-filter_of (λ t. not (t.id == x.id)) _ other there)
      ]

  kept_by_others :
      (xs : List Sending) (db : AccountDb s) (row : ResetToken)
      → All (λ x. ((row.user_id == x.user_id) ≡ false) × ((row.id == x.id) ≡ false)) xs
      → Memᴰ row (s.rows db.reset_tokens)
      → Memᴰ row (s.rows (send_all xs db).reset_tokens)
  kept_by_others [] db row h m = m
  kept_by_others (x ∷ xs) db row h m =
      kept_by_others xs _ row h.1 (kept_by_other db row x h.0.0 h.0.1 m)

  -- A live row lets its token through.
  listed_works :
      (db : AccountDb s) (row : ResetToken) (h new : String) (later : ℕ)
      → Memᴰ row (s.rows db.reset_tokens)
      → is_live h later row ≡ true
      → (db' : AccountDb s) × (confirm_password_reset s p db h new later ≡ ok db')
  unfolding confirm_password_reset confirm_claimed
  listed_works db row h new later m live =
      let (x, found) = found_one s p (is_live h later) db.reset_tokens m live in
      let own : has_hash h row ≡ true = ground (arith, live) in
      let marked : Memᴰ (mark_token later row)
          (s.rows (s.update_many (is_live h later) (mark_token later) db.reset_tokens)) =
        rw s.rows-update_many (
          mem-update_rows_hit (is_live h later) (mark_token later) (s.rows db.reset_tokens) live
            m) in
      let (y, claimed) =
        found_one s p (has_hash h)
          (s.update_many (is_live h later) (mark_token later) db.reset_tokens) marked own in
      rw (found, claimed) (_, refl)

  dead_refused :
      (db : AccountDb s) (h new : String) (later : ℕ)
      → All (λ t. is_live h later t ≡ false) (s.rows db.reset_tokens)
      → confirm_password_reset s p db h new later ≡ err invalid_or_expired_token
  unfolding confirm_password_reset
  dead_refused db h new later dead =
      rw
        (Finds-none (is_live h later) _ _ dead
          (s.find_first-Finds (is_live h later) db.reset_tokens))
        refl

  dead_of_hash :
      (h : String) (later : ℕ) (ts : List ResetToken)
      → All (λ t. has_hash h t ≡ false) ts
      → All (λ t. is_live h later t ≡ false) ts
  dead_of_hash h later ts =
      All-map (λ t. has_hash h t ≡ false) (λ t. is_live h later t ≡ false)
        (λ t e. ground (arith, e)) ts

  within_hour :
      (db : AccountDb s) (id : ℕ) (h : String) (user now : ℕ) (others : List Sending) (later : ℕ)
      (new : String)
      → All (λ x. ((user == x.user_id) ≡ false) × ((id == x.id) ≡ false)) others
      → later < now + 3600000
      → (db' : AccountDb s) × (confirm_password_reset s p
            (send_all others (issue_link s p db id h user now true).1)
            h
            new
            later
          ≡ ok db')
  within_hour db id h user now others later new apart soon =
      let own : str_eq h h ≡ true = (eq_iff h h).1 refl in
      listed_works _ (link_row id h user now) h new later
        (kept_by_others others _ (link_row id h user now) apart
          (issue_link_only s p db id h user now).0)
        (ground (arith, own, soon))

  after_hour :
      (db : AccountDb s) (id : ℕ) (h : String) (user now later : ℕ) (new : String)
      → All (λ t. has_hash h t ≡ false) (s.rows db.reset_tokens)
      → now + 3600000 ≤ later
      → confirm_password_reset s p (issue_link s p db id h user now true).1 h new later
        ≡ err invalid_or_expired_token
  unfolding issue_link
  after_hour db id h user now later new fresh late =
      let row = link_row id h user now in
      let dead : is_live h later row ≡ false = ground (arith, late) in
      dead_refused _ h new later (
        rw (s.rows-delete_many, s.rows-create)
          (All-kept (λ t. is_live h later t ≡ false) (λ t. not (is_older user id t)) _
            (All-added (λ t. is_live h later t ≡ false) (s.rows db.reset_tokens) row
              (dead_of_hash h later (s.rows db.reset_tokens) fresh) dead)))

  -- Where each row with the hash is an older link of a user, sending the user another link leaves none.
  none_after :
      (db : AccountDb s) (h : String) (x : Sending)
      → str_eq x.token_hash h ≡ false
      → All
          (λ t. (has_hash h t ≡ false) ⊎ (is_older x.user_id x.id t ≡ true))
          (s.rows db.reset_tokens)
      → All
          (λ t. has_hash h t ≡ false)
          (s.rows (issue_link s p db x.id x.token_hash x.user_id x.at x.mailed).1.reset_tokens)
  unfolding issue_link
  none_after db h x apart old =
      let row = link_row x.id x.token_hash x.user_id x.at in
      let gone = none_kept h (is_older x.user_id x.id) _ (
        All-added (λ t. (has_hash h t ≡ false) ⊎ (is_older x.user_id x.id t ≡ true))
          (s.rows db.reset_tokens) row old (inl apart)) in
      elim (Bool-cases x.mailed) [
        | inl sent ↦ rw (sent, s.rows-delete_many, s.rows-create) gone
        | inr failed ↦
            rw (failed, s.rows-delete_many, s.rows-delete_many, s.rows-create)
              (All-kept (λ t. has_hash h t ≡ false) (λ t. not (t.id == x.id)) _ gone)
      ]

  first_is_older :
      (db : AccountDb s) (id : ℕ) (h : String) (user now : ℕ) (x : Sending)
      → All (λ t. has_hash h t ≡ false) (s.rows db.reset_tokens)
      → x.user_id ≡ user
      → (id == x.id) ≡ false
      → All
          (λ t. (has_hash h t ≡ false) ⊎ (is_older x.user_id x.id t ≡ true))
          (s.rows (issue_link s p db id h user now true).1.reset_tokens)
  unfolding issue_link
  first_is_older db id h user now x fresh same apart =
      let row = link_row id h user now in
      let mine : (user == x.user_id) ≡ true = ground (arith, same) in
      let older : is_older x.user_id x.id row ≡ true = rw (mine, apart) refl in
      let P : ResetToken → Type 0 =
        λ t. (has_hash h t ≡ false) ⊎ (is_older x.user_id x.id t ≡ true) in
      rw (s.rows-delete_many, s.rows-create)
        (All-kept P (λ t. not (is_older user id t)) _
          (All-added P (s.rows db.reset_tokens) row
            (All-map (λ t. has_hash h t ≡ false) P (λ t e. inl e) (s.rows db.reset_tokens) fresh)
            (inr older)))

  -- A link that was sent a user works for an hour, whatever links other users are sent meanwhile: `confirmPasswordReset` with its token returns. The
  -- token is refused from the hour on, and it is refused at any time once the user is sent another link. No older token has its hash, and new links
  -- have ids and hashes of their own.
  pub sent_link_works :
      (db : AccountDb s) (id : ℕ) (h : String) (user now : ℕ) (others : List Sending)
      (next : Sending) (soon late any : ℕ) (new : String)
      → All (λ t. str_eq t.token_hash h ≡ false) (s.rows db.reset_tokens)
      → All (λ x. ((user == x.user_id) ≡ false) × ((id == x.id) ≡ false)) others
      → next.user_id ≡ user
      → (id == next.id) ≡ false
      → str_eq next.token_hash h ≡ false
      → soon < now + 3600000
      → now + 3600000 ≤ late
      → let sent = (issue_link s p db id h user now true).1 in
        ((db' : AccountDb s) × (confirm_password_reset s p (send_all others sent) h new soon
            ≡ ok db'))
        × (confirm_password_reset s p sent h new late ≡ err invalid_or_expired_token)
        × (confirm_password_reset s p (send_all (next ∷ []) sent) h new any
            ≡ err invalid_or_expired_token)
  sent_link_works db id h user now others next soon late any new fresh apart same own other before
        after =
      let sent = (issue_link s p db id h user now true).1 in
      (
        within_hour db id h user now others soon new apart before,
        after_hour db id h user now late new fresh after,
        dead_refused _ h new any (
            dead_of_hash h any _
              (none_after sent h next other (first_is_older db id h user now next fresh same own))),
      )
