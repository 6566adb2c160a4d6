-- ===== src/Otp.antt =====
-- Login challenges with one-time codes (src/services/otp.service.js). Hashing and the comparison of a code
-- with its hash, the code itself, the new id and the time are arguments; so is whether the mail goes out.
pub mod Attempts
mod Tests
use coparentes_backend.Common.{
  ℕ, ◌+◌, ◌-◌, ◌*◌, Bool, true, false, not, Option, none, some, String, ◌==◌, ltb, leb,
  if◌then◌else◌, Result, ok, err, otp_email_failed,
}
use coparentes_backend.Common.Store.{Store}

pub record Challenge : Type 0 where
  pub id : ℕ
  pub user_id : ℕ
  pub code_hash : String
  pub expires_at : ℕ
  pub used : Bool
  pub failed_attempts : ℕ
  pub last_sent_at : ℕ

pub record Options : Type 0 where
  pub ttl_minutes : ℕ
  pub max_attempts : ℕ
  pub resend_cooldown_seconds : ℕ

-- What `verifyLoginOtpChallenge` returns: the user, or an error, with the attempts that remain.
pub data Verdict : Type 0 where
  signed_in : ℕ → Verdict
  invalid_challenge otp_expired otp_locked : Verdict
  invalid_otp : ℕ → Bool → Verdict

-- What `resendLoginOtpChallenge` returns.
pub data Resent : Type 0 where
  sent : Challenge → Resent
  no_challenge : Resent
  cooling_down : ℕ → Resent

abbrev pub fail_once : Challenge → Challenge
fail_once c = record c { failed_attempts = c.failed_attempts + 1 }

abbrev pub mark_used : Challenge → Challenge
mark_used c = record c { used = true }

-- The row of a new challenge.
abbrev pub challenge_row : Options → ℕ → ℕ → String → ℕ → Challenge
challenge_row o id user_id code_hash now = record {
  id = id;
  user_id = user_id;
  code_hash = code_hash;
  expires_at = now + o.ttl_minutes * 60 * 1000;
  used = false;
  failed_attempts = 0;
  last_sent_at = now;
}

module _ (s : Store) (o : Options) (matches : String → String → Bool) where
  -- `purgeOtpChallengesForUser`
  unfoldable pub purge : ℕ → s.Table Challenge → s.Table Challenge
  purge user_id = s.delete_many (λ c. c.user_id == user_id)

  -- `createLoginOtpChallenge`; when the mail fails, the row is deleted again and the error goes on.
  unfoldable pub create_challenge :
      s.Table Challenge → ℕ → ℕ → String → ℕ → Bool → Result Challenge × s.Table Challenge
  unfolding purge
  create_challenge t id user_id code_hash now mailed =
      let row = challenge_row o id user_id code_hash now in
      let created = s.create row (purge user_id t) in
      if mailed
      then (ok row, created)
      else (err otp_email_failed, s.delete_many (λ c. c.id == id) created)

  unfoldable pub resend_found :
      s.Table Challenge
      → ℕ
      → String
      → ℕ
      → Bool
      → Option Challenge
      → Result Resent × s.Table Challenge
  unfolding create_challenge
  resend_found t new_id code_hash now mailed none = (ok no_challenge, t)
  resend_found t new_id code_hash now mailed (some c) =
      let cooldown_until = c.last_sent_at + o.resend_cooldown_seconds * 1000 in
      let r = create_challenge t new_id c.user_id code_hash now mailed in
      if c.used
      then (ok no_challenge, t)
      else if ltb now cooldown_until
      then (ok (cooling_down cooldown_until), t)
      else (elim r.0 [ ok row ↦ ok (sent row) | err e ↦ err e ], r.1)

  -- `resendLoginOtpChallenge`
  unfoldable pub resend_challenge :
      s.Table Challenge → ℕ → ℕ → String → ℕ → Bool → Result Resent × s.Table Challenge
  unfolding resend_found
  resend_challenge t challenge_id new_id code_hash now mailed =
      resend_found t new_id code_hash now mailed (s.find_first (λ c. c.id == challenge_id) t)

  -- `verifyLoginOtpChallenge` behind its search, without the token of a trusted device.
  unfoldable pub verify_found :
      s.Table Challenge → ℕ → String → Option Challenge → Verdict × s.Table Challenge
  unfolding purge
  verify_found t now code none = (invalid_challenge, t)
  verify_found t now code (some c) =
      if c.used
      then (invalid_challenge, t)
      else if ltb c.expires_at now
      then (otp_expired, t)
      else if leb o.max_attempts c.failed_attempts
      then (otp_locked, t)
      else if matches code c.code_hash
      then (signed_in c.user_id, purge c.user_id (s.update_many (λ r. r.id == c.id) mark_used t))
      else (
        invalid_otp (o.max_attempts - (c.failed_attempts + 1))
            (leb o.max_attempts (c.failed_attempts + 1)),
        s.update_many (λ r. r.id == c.id) fail_once t,
      )

  -- `verifyLoginOtpChallenge`
  unfoldable pub verify_challenge : s.Table Challenge → ℕ → ℕ → String → Verdict × s.Table Challenge
  unfolding verify_found
  verify_challenge t challenge_id now code =
      verify_found t now code (s.find_first (λ c. c.id == challenge_id) t)
