-- ===== src/RateLimit/Tests.antt =====
-- The rate limiter at concrete times and limits.
use coparentes_backend.Common.{ℕ, ◌+◌, ◌*◌, ◌≤◌, ◌≡◌, refl, true, false, none, List, [], ◌∷◌, arith}
use coparentes_backend.RateLimit.{
  Bucket, Buckets, attempt, fresh_bucket, otp_verify, otp_issue, consume_rate_limit_attempt,
  prune_rate_limit_buckets,
}
use coparentes_backend.RateLimit.Window.{allowed, allowed-le-twice_max}
use coparentes_backend.RateLimit.Prune.{
  Event, attempts, prunes, answers, without_prunes, answers-without_prunes,
}

abbrev used_up : Bucket
used_up = record { count = 5; window_start = 1000; locked_until = 0 }

abbrev no_buckets : Buckets
no_buckets k = none

abbrev five_minutes_of_tries : List ℕ
five_minutes_of_tries = 1000 ∷ 2000 ∷ 3000 ∷ 4000 ∷ 5000 ∷ 6000 ∷ 7000 ∷ []

abbrev history : List (ℕ × Event)
history =
    (1000, attempts "user:1")
    ∷ (2000, attempts "user:1")
    ∷ (3000, attempts "user:1")
    ∷ (4000, attempts "user:1")
    ∷ (2000000, prunes)
    ∷ (2000000, attempts "user:1")
    ∷ []

seven_tries : allowed otp_verify (fresh_bucket 1000) five_minutes_of_tries ≡ 5
unfolding allowed attempt
seven_tries = refl

issue_answers : answers otp_issue no_buckets history ≡ true ∷ true ∷ true ∷ false ∷ true ∷ []
unfolding answers consume_rate_limit_attempt prune_rate_limit_buckets
issue_answers = refl

allowed-le-twice_max_example :
    allowed otp_verify used_up five_minutes_of_tries + used_up.count ≤ 2 * otp_verify.max
allowed-le-twice_max_example =
    allowed-le-twice_max otp_verify 1000 used_up five_minutes_of_tries (omega arith) (omega arith)

answers-without_prunes_example :
    answers otp_issue no_buckets history ≡ answers otp_issue no_buckets (without_prunes history)
answers-without_prunes_example = answers-without_prunes otp_issue 0 no_buckets history (omega arith)
