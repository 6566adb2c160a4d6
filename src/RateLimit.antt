-- ===== src/RateLimit.antt =====
-- The in-memory rate limiter of src/middleware/otpRateLimit.js. `Date.now()` is the argument `now`,
-- in milliseconds; the `Map` of buckets is a function from keys, with `none` for a missing key.
-- A difference of times is compared with the operands moved across, so that it may be negative.
pub mod Window
pub mod Prune
mod Tests
use coparentes_backend.Common.{
  ℕ, ◌+◌, ◌*◌, Bool, true, false, ◌&&◌, Option, none, some, String, ltb, leb, str_eq, if◌then◌else◌,
}

pub record Bucket : Type 0 where
  pub count : ℕ
  pub window_start : ℕ
  pub locked_until : ℕ

pub record Options : Type 0 where
  pub max : ℕ
  pub window_ms : ℕ
  pub lock_ms : ℕ

abbrev pub fresh_bucket : ℕ → Bucket
fresh_bucket now = record { count = 0; window_start = now; locked_until = 0 }

-- `if (now - bucket.windowStart >= windowMs)`: a new window begins.
roll_window : Options → ℕ → Bucket → Bucket
roll_window o now b =
    if leb (o.window_ms + b.window_start) now then record b { count = 0; window_start = now } else b

-- The last two steps, on a bucket in the current window: refuse, or count the attempt.
count_attempt : Options → ℕ → Bucket → Bool × Bucket
count_attempt o now b =
    if leb o.max b.count
    then (false, if ltb 0 o.lock_ms then record b { locked_until = now + o.lock_ms } else b)
    else (true, record b { count = b.count + 1 })

-- `consumeRateLimitAttempt` on the bucket of its key.
unfoldable pub attempt : Options → ℕ → Bucket → Bool × Bucket
unfolding roll_window count_attempt
attempt o now b =
    if ltb now b.locked_until then (false, b) else count_attempt o now (roll_window o now b)

abbrev pub Buckets : Type 0
Buckets = String → Option Bucket

abbrev pub set_bucket : Buckets → String → Option Bucket → Buckets
set_bucket m k v j = if str_eq k j then v else m j

abbrev pub bucket_or_fresh : ℕ → Option Bucket → Bucket
bucket_or_fresh now none = fresh_bucket now
bucket_or_fresh now (some b) = b

-- The answer is true for an allowed attempt; the bucket is written back in every case.
unfoldable pub consume_rate_limit_attempt : Buckets → String → Options → ℕ → Bool × Buckets
unfolding attempt
consume_rate_limit_attempt m key o now =
    let r = attempt o now (bucket_or_fresh now (m key)) in (r.0, set_bucket m key (some r.1))

-- `windowExpired && unlocked`
unfoldable pub is_stale : ℕ → ℕ → Bucket → Bool
is_stale window_ms now b = ltb (window_ms + b.window_start) now && ltb b.locked_until now

-- One round of the loop of `pruneRateLimitBuckets`.
unfoldable pub prune_bucket : ℕ → ℕ → Option Bucket → Option Bucket
unfolding is_stale
prune_bucket window_ms now none = none
prune_bucket window_ms now (some b) = if is_stale window_ms now b then none else some b

unfoldable pub prune_rate_limit_buckets : ℕ → ℕ → Buckets → Buckets
unfolding prune_bucket
prune_rate_limit_buckets window_ms now m k = prune_bucket window_ms now (m k)

abbrev pub otp_verify : Options
otp_verify = record { max = 5; window_ms = 5 * 60 * 1000; lock_ms = 15 * 60 * 1000 }

abbrev pub otp_issue : Options
otp_issue = record { max = 3; window_ms = 15 * 60 * 1000; lock_ms = 0 }
