-- ===== src/Otp/Attempts.antt =====
-- What a code is good for: few tries, and one success.
use mathlib.Core.List.{Memᴰ}
use coparentes_backend.Common.{
  ℕ, ◌+◌, ◌-◌, ◌≤◌, ◌<◌, ◌≡◌, refl, inl, inr, Bool, true, false, not, Option, none, some, String,
  List, [], ◌∷◌, arith, All, filter, ◌==◌, ltb, leb, Bool-cases,
}
use coparentes_backend.Common.Store.{Store, Finds, update_rows}
use coparentes_backend.Otp.{
  Challenge, Options, Verdict, signed_in, invalid_otp, purge, verify_found, verify_challenge,
}

abbrev not_of : ℕ → Challenge → Bool
not_of user c = not (c.user_id == user)

filter-not_of :
    (user : ℕ) (cs : List Challenge)
    → All (λ c. (c.user_id == user) ≡ false) (filter (not_of user) cs)
filter-not_of user [] = tt
filter-not_of user (c ∷ cs) = elim (Bool-cases (c.user_id == user)) [
  | inl own ↦ rw own (filter-not_of user cs)
  | inr other ↦ rw other (other, filter-not_of user cs)
]

-- The lock is told when no try remains.
lock_told : (failed most : ℕ) → failed < most → leb most (failed + 1) ≡ (most - (failed + 1) == 0)
lock_told failed most left = ground (arith, left)

module _ (s : Store) (o : Options) (matches : String → String → Bool) where
  -- What each answer to a code says. A sign-in: the challenge stood in the table, unused, not expired, with a
  -- try left and the right code, and afterwards its user has no challenge. A wrong code: the challenge was unused, not
  -- expired and had a try left, and just the row's count went up by one. Any other answer writes nothing.
  abbrev pub Verifies : s.Table Challenge → ℕ → ℕ → String → Verdict × s.Table Challenge → Type 0
  Verifies t id now code (signed_in user, t') =
      ((c : Challenge) × Memᴰ c (s.rows t)
        × (c.id ≡ id)
        × (c.user_id ≡ user)
        × (c.used ≡ false)
        × (now ≤ c.expires_at)
        × (c.failed_attempts < o.max_attempts)
        × (matches code c.code_hash ≡ true))
      × All (λ c. (c.user_id == user) ≡ false) (s.rows t')
  Verifies t id now code (invalid_otp remaining locked, t') =
      (c : Challenge) × Memᴰ c (s.rows t)
      × (c.id ≡ id)
      × (c.used ≡ false)
      × (now ≤ c.expires_at)
      × (matches code c.code_hash ≡ false)
      × (c.failed_attempts + 1 + remaining ≡ o.max_attempts)
      × (locked ≡ (remaining == 0))
      × (s.rows t'
          ≡ update_rows (λ r. r.id == id)
              (λ r. record r { failed_attempts = r.failed_attempts + 1 }) (s.rows t))
  Verifies t id now code (_, t') = t' ≡ t

  verify_found-Verifies :
      (t : s.Table Challenge) (id now : ℕ) (code : String) (c : Option Challenge)
      → Finds (λ c. c.id == id) (s.rows t) c
      → Verifies t id now code (verify_found s o matches t now code c)
  unfolding verify_found purge
  verify_found-Verifies t id now code none found = refl
  verify_found-Verifies t id now code (some c) (hit, m) = elim (Bool-cases c.used) [
    | inl used ↦ rw used refl
    | inr unused ↦ elim (Bool-cases (ltb c.expires_at now)) [
      | inl late ↦ rw (unused, late) refl
      | inr in_time ↦ elim (Bool-cases (leb o.max_attempts c.failed_attempts)) [
        | inl locked ↦ rw (unused, in_time, locked) refl
        | inr left ↦ elim (Bool-cases (matches code c.code_hash)) [
          | inl right ↦
              rw (unused, in_time, left, right)
                (
                  (
                    c,
                    m,
                    ground (arith, hit),
                    refl,
                    unused,
                    ground (arith, in_time),
                    ground (arith, left),
                    right,
                  ),
                  rw s.rows-delete_many (filter-not_of c.user_id _),
                )
          | inr wrong ↦
              let same : c.id ≡ id = ground (arith, hit) in
              rw (unused, in_time, left, wrong)
                (
                  c,
                  m,
                  same,
                  unused,
                  ground (arith, in_time),
                  wrong,
                  ground (arith, left),
                  lock_told c.failed_attempts o.max_attempts (ground (arith, left)),
                  rw (s.rows-update_many, same) refl,
                )
        ]
      ]
    ]
  ]

  -- A call of `verifyLoginOtpChallenge` that signs a user in found an unused challenge of that user, not expired,
  -- with a try left and the right code, and leaves the user no challenge; one that refuses a wrong code
  -- found an unused challenge, not expired, with a try left, adds one to its failed attempts, changes nothing else, and says how many
  -- tries remain and whether none does; any other answer writes nothing.
  pub verify_challenge-Verifies :
      (t : s.Table Challenge) (id now : ℕ) (code : String)
      → Verifies t id now code (verify_challenge s o matches t id now code)
  unfolding verify_challenge
  verify_challenge-Verifies t id now code =
      verify_found-Verifies t id now code _ (s.find_first-Finds _ t)
