-- ===== src/RateLimit/Prune.antt =====
-- Pruning of the rate limiter's buckets cannot be observed.
use coparentes_backend.Common.{
  ℕ, ◌+◌, ◌≤◌, ◌≡◌, ◌⊎◌, refl, inl, inr, Bool, Option, none, some, String, List, [], ◌∷◌, arith,
  Bool-cases, str_eq,
}
use coparentes_backend.RateLimit.{
  Bucket, Options, Buckets, attempt, bucket_or_fresh, prune_bucket, consume_rate_limit_attempt,
  prune_rate_limit_buckets,
}

pub data Event : Type 0 where
  attempts : String → Event
  prunes : Event

-- The answers to the attempts of a history of timed events on one map of buckets.
unfoldable pub answers : Options → Buckets → List (ℕ × Event) → List Bool
answers o m [] = []
answers o m ((now, attempts key) ∷ es) =
    let r = consume_rate_limit_attempt m key o now in r.0 ∷ answers o r.1 es
answers o m ((now, prunes) ∷ es) = answers o (prune_rate_limit_buckets o.window_ms now m) es

unfoldable pub without_prunes : List (ℕ × Event) → List (ℕ × Event)
without_prunes [] = []
without_prunes ((now, attempts key) ∷ es) = (now, attempts key) ∷ without_prunes es
without_prunes ((now, prunes) ∷ es) = without_prunes es

-- The times of a history do not fall, and start no earlier than the given one.
abbrev pub Ordered : ℕ → List (ℕ × Event) → Type 0
Ordered past [] = Unit
Ordered past ((now, e) ∷ es) = (past ≤ now) × Ordered now es

-- A bucket that pruning may have removed, beside the one that was kept: from `now` on both answer
-- alike. Locks that have run out need not agree.
abbrev Alike : Options → ℕ → Option Bucket → Option Bucket → Type 0
Alike o now none none = Unit
Alike o now none (some b) = (b.locked_until ≤ now) × (o.window_ms + b.window_start ≤ now)
Alike o now (some a) none = ⊥
Alike o now (some a) (some b) =
    (a.count ≡ b.count)
    × (a.window_start ≡ b.window_start)
    × ((a.locked_until ≡ b.locked_until) ⊎ (a.locked_until ≤ now) × (b.locked_until ≤ now))

attempt-Alike :
    (o : Options) (past now : ℕ) (a b : Option Bucket)
    → past ≤ now
    → Alike o past a b
    → ((attempt o now (bucket_or_fresh now a)).0 ≡ (attempt o now (bucket_or_fresh now b)).0)
      × Alike o now
          (some (attempt o now (bucket_or_fresh now a)).1)
          (some (attempt o now (bucket_or_fresh now b)).1)
unfolding attempt
attempt-Alike o past now none none h s = ground arith
attempt-Alike o past now none (some b) h s = ground arith
attempt-Alike o past now (some a) none h s = absurd s
attempt-Alike o past now (some a) (some b) h s = ground arith

Alike-later :
    (o : Options) (past now : ℕ) (a b : Option Bucket)
    → past ≤ now
    → Alike o past a b
    → Alike o now a b
Alike-later o past now none none h s = tt
Alike-later o past now none (some b) h s = omega arith
Alike-later o past now (some a) none h s = s
Alike-later o past now (some a) (some b) h s = ground arith

prune_bucket-Alike :
    (o : Options) (past now : ℕ) (a b : Option Bucket)
    → past ≤ now
    → Alike o past a b
    → Alike o now (prune_bucket o.window_ms now a) b
unfolding prune_bucket
prune_bucket-Alike o past now none b h s = Alike-later o past now none b h s
prune_bucket-Alike o past now (some a) none h s = absurd s
prune_bucket-Alike o past now (some a) (some b) h s = ground arith

-- The two maps of buckets, key by key.
abbrev AllAlike : Options → ℕ → Buckets → Buckets → Type 0
AllAlike o now m n = (k : String) → Alike o now (m k) (n k)

consume-AllAlike :
    (o : Options) (past now : ℕ) (key : String) (m n : Buckets)
    → past ≤ now
    → AllAlike o past m n
    → AllAlike o now
        (consume_rate_limit_attempt m key o now).1
        (consume_rate_limit_attempt n key o now).1
unfolding consume_rate_limit_attempt
consume-AllAlike o past now key m n h s k = elim (Bool-cases (str_eq key k)) [
  | inl same ↦ rw same (attempt-Alike o past now (m key) (n key) h (s key)).1
  | inr other ↦ rw other (Alike-later o past now (m k) (n k) h (s k))
]

prune-AllAlike :
    (o : Options) (past now : ℕ) (m n : Buckets)
    → past ≤ now
    → AllAlike o past m n
    → AllAlike o now (prune_rate_limit_buckets o.window_ms now m) n
unfolding prune_rate_limit_buckets
prune-AllAlike o past now m n h s k = prune_bucket-Alike o past now (m k) (n k) h (s k)

answers-AllAlike :
    (o : Options) (past : ℕ) (m n : Buckets) (es : List (ℕ × Event))
    → Ordered past es
    → AllAlike o past m n
    → answers o m es ≡ answers o n (without_prunes es)
unfolding answers without_prunes consume_rate_limit_attempt
answers-AllAlike o past m n [] h s = refl
answers-AllAlike o past m n ((now, attempts key) ∷ es) h s = cc (
  (attempt-Alike o past now (m key) (n key) h.0 (s key)).0,
  answers-AllAlike o now _ _ es h.1 (consume-AllAlike o past now key m n h.0 s),
)
answers-AllAlike o past m n ((now, prunes) ∷ es) h s =
    answers-AllAlike o now _ n es h.1 (prune-AllAlike o past now m n h.0 s)

Alike-refl : (o : Options) (now : ℕ) (b : Option Bucket) → Alike o now b b
Alike-refl o now none = tt
Alike-refl o now (some b) = (refl, refl, inl refl)

-- In every history whose times do not fall, the attempts get the answers that they get when no
-- bucket is ever pruned.
pub answers-without_prunes :
    (o : Options) (past : ℕ) (m : Buckets) (es : List (ℕ × Event))
    → Ordered past es
    → answers o m es ≡ answers o m (without_prunes es)
answers-without_prunes o past m es h =
    answers-AllAlike o past m m es h (λ k. Alike-refl o past (m k))
