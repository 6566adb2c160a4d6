-- ===== src/RateLimit/Window.antt =====
-- How many attempts one bucket of the rate limiter lets through, and how its lock behaves.
use coparentes_backend.Common.{
  ℕ, ◌+◌, ◌*◌, ◌≤◌, ◌<◌, ◌≡◌, true, false, List, [], ◌∷◌, arith, All, if◌then◌else◌, All-map, ◌⊎◌,
  inl, inr,
}
use coparentes_backend.RateLimit.{Bucket, Options, attempt, fresh_bucket}

-- The attempts at the listed times that one bucket allows.
unfoldable pub allowed : Options → Bucket → List ℕ → ℕ
allowed o b [] = 0
allowed o b (t ∷ ts) = let r = attempt o t b in (if r.0 then 1 else 0) + allowed o r.1 ts

-- An attempt before the window's end keeps the window and counts itself if it is allowed.
attempt_in_window :
    (o : Options) (t : ℕ) (b : Bucket)
    → t < o.window_ms + b.window_start
    → b.count ≤ o.max
    → let r = attempt o t b in
      (r.1.window_start ≡ b.window_start)
      × (r.1.count ≡ (if r.0 then 1 else 0) + b.count)
      × (r.1.count ≤ o.max)
unfolding attempt
attempt_in_window o t b h low = ground arith

-- An attempt never leaves more than `max` on the count, and opens a window no later than its time.
attempt_bounds :
    (o : Options) (s t : ℕ) (b : Bucket)
    → s ≤ t
    → b.count ≤ o.max
    → let r = attempt o t b in
      ((r.1.window_start ≡ b.window_start)
        × (r.1.count ≡ (if r.0 then 1 else 0) + b.count)
        × (r.1.count ≤ o.max))
      ⊎ (s ≤ r.1.window_start) × (r.1.count ≡ (if r.0 then 1 else 0)) × (r.1.count ≤ o.max)
unfolding attempt
attempt_bounds o s t b h low = ground arith

-- Inside one window the count grows by one for each allowed attempt.
allowed-count :
    (o : Options) (limit : ℕ) (b : Bucket) (ts : List ℕ)
    → limit ≤ o.window_ms + b.window_start
    → All (λ t. t < limit) ts
    → b.count ≤ o.max
    → allowed o b ts + b.count ≤ o.max
unfolding allowed
allowed-count o limit b [] h before low = omega arith
allowed-count o limit b (t ∷ ts) h (now, before) low =
    let (same, grown, fits) = attempt_in_window o t b (omega arith) low in
    let ih = allowed-count o limit (attempt o t b).1 ts (omega arith) before fits in omega arith

-- Over any stretch of time no longer than the window, one bucket allows at most twice `max`
-- attempts, since at most one new window begins in it.
pub allowed-le-twice_max :
    (o : Options) (s : ℕ) (b : Bucket) (ts : List ℕ)
    → All (λ t. (s ≤ t) × (t < s + o.window_ms)) ts
    → b.count ≤ o.max
    → allowed o b ts + b.count ≤ 2 * o.max
unfolding allowed
allowed-le-twice_max o s b [] inside low = omega arith
allowed-le-twice_max o s b (t ∷ ts) (now, inside) low = elim (attempt_bounds o s t b now.0 low) [
  | inl (same, grown, fits) ↦
      let ih = allowed-le-twice_max o s (attempt o t b).1 ts inside fits in omega arith
  | inr (later, grown, fits) ↦
      let ih =
        allowed-count o (s + o.window_ms) (attempt o t b).1 ts (omega arith)
          (All-map _ _ (λ x h. h.1) ts inside) fits in
      omega arith
]

-- From the start of a window on, at most `max` attempts are allowed before its end.
pub allowed-le-max :
    (o : Options) (start : ℕ) (ts : List ℕ)
    → All (λ t. t < o.window_ms + start) ts
    → allowed o (fresh_bucket start) ts ≤ o.max
allowed-le-max o start ts before =
    omega (arith, allowed-count o _ (fresh_bucket start) ts (omega arith) before (omega arith))

-- A refused attempt that finds the window used up locks the bucket, if locking is on: every later
-- attempt before the lock's end is refused and changes nothing.
pub attempt_locks :
    (o : Options) (now later : ℕ) (b : Bucket)
    → 0 < o.lock_ms
    → b.locked_until ≤ now
    → (attempt o now b).0 ≡ false
    → later < now + o.lock_ms
    → attempt o later (attempt o now b).1 ≡ (false, (attempt o now b).1)
unfolding attempt
attempt_locks o now later b on unlocked refused before = ground arith

-- Once its lock and its window have run out, a bucket allows the next attempt again.
pub attempt_recovers :
    (o : Options) (now : ℕ) (b : Bucket)
    → 0 < o.max
    → b.locked_until ≤ now
    → o.window_ms + b.window_start ≤ now
    → (attempt o now b).0 ≡ true
unfolding attempt
attempt_recovers o now b room unlocked over = ground arith
