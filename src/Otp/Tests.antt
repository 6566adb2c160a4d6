-- ===== src/Otp/Tests.antt =====
-- Codes against a challenge kept in a list.
use coparentes_backend.Common.{◌≡◌, refl, List, [], ◌∷◌, String, Bool, str_eq}
use coparentes_backend.Common.Store.{list_store}
use coparentes_backend.Otp.{
  Challenge, Options, signed_in, otp_locked, challenge_row, verify_challenge,
}
use coparentes_backend.Otp.Attempts.{Verifies, verify_challenge-Verifies}

abbrev options : Options
options = record { ttl_minutes = 10; max_attempts = 5; resend_cooldown_seconds = 60 }

abbrev same_text : String → String → Bool
same_text = str_eq

abbrev issued : List Challenge
issued = challenge_row options 4 2 "123456" 1000 ∷ []

abbrev used_up : List Challenge
used_up = record (challenge_row options 4 2 "123456" 1000) { failed_attempts = 5 } ∷ []

right_code :
    verify_challenge list_store options same_text issued 4 2000 "123456" ≡ (signed_in 2, [])
unfolding verify_challenge
right_code = refl

locked :
    verify_challenge list_store options same_text used_up 4 2000 "123456" ≡ (otp_locked, used_up)
unfolding verify_challenge
locked = refl

verify_challenge-Verifies_example :
    Verifies list_store options same_text issued 4 2000 "123456"
      (verify_challenge list_store options same_text issued 4 2000 "123456")
verify_challenge-Verifies_example =
    verify_challenge-Verifies list_store options same_text issued 4 2000 "123456"
