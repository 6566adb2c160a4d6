-- ===== src/Crypto/RoundTrip.antt =====
-- What field encryption gives back, and which texts it leaves as they are.
use Prim.Native.String
use text.Mathlib.TextPositions.{starts_with-append, slice-append_right, len-append}
use coparentes_backend.Common.{
  ◌≡◌, ◌≢◌, ap, true, false, Option, some, String, str_eq, refl, eq_iff, arith, inl, inr,
  Bool-cases,
}
use coparentes_backend.Crypto.{
  KeyName, Cipher, prefix, is_encrypted, drop_prefix, encrypt, decrypt, decrypt_optional,
  decrypt_optional_safe,
}

pub drop_prefix_lem : (x : String) → drop_prefix (String.◌++◌ prefix x) ≡ x
drop_prefix_lem x = rw (len-append prefix x) (slice-append_right prefix x)

pub str_eq-prefix : (x : String) → str_eq (String.◌++◌ prefix x) "" ≡ false
str_eq-prefix x = elim (Bool-cases (str_eq (String.◌++◌ prefix x) "")) [
  | inl e ↦
      let same = ap String.len ((eq_iff _ _).0 e) in
      absurd (omega (arith, same, len-append prefix x))
  | inr e ↦ e
]

pub is_encrypted-prefix : (x : String) → is_encrypted (String.◌++◌ prefix x) ≡ true
unfolding is_encrypted
is_encrypted-prefix x = starts_with-append prefix x

module _ (c : Cipher) where
  -- A text that is neither empty nor already prefixed is stored under the prefix.
  encrypt_plain :
      (x : String) (k : KeyName)
      → x ≢ ""
      → is_encrypted x ≡ false
      → encrypt c x k ≡ String.◌++◌ prefix (c.seal k x)
  unfolding encrypt
  encrypt_plain x k full plain = ground (arith, eq_iff x "")

  decrypt_sealed :
      (k : KeyName) (x : String)
      → str_eq x "" ≡ false
      → decrypt c (String.◌++◌ prefix (c.seal k x)) ≡ some x
  unfolding decrypt
  decrypt_sealed k x full =
      rw
        (str_eq-prefix (c.seal k x), is_encrypted-prefix (c.seal k x), drop_prefix_lem (c.seal k x))
        (c.unseal-seal k x full)

  encrypt-eq_self : (x : String) (k : KeyName) → is_encrypted x ≡ true → encrypt c x k ≡ x
  unfolding encrypt
  encrypt-eq_self x k e = ground (arith, e)

  encrypt_empty : (x : String) (k : KeyName) → str_eq x "" ≡ true → encrypt c x k ≡ x
  unfolding encrypt
  encrypt_empty x k e = rw e

  decrypt-encrypt_empty :
      (x : String) (k : KeyName) → str_eq x "" ≡ true → decrypt c (encrypt c x k) ≡ some x
  unfolding encrypt decrypt
  decrypt-encrypt_empty x k e = rw (e, e)

  -- A text that is not empty is stored as a value that carries the prefix of encrypted ones.
  pub encrypt-is_encrypted :
      (x : String) (k : KeyName) → x ≢ "" → is_encrypted (encrypt c x k) ≡ true
  encrypt-is_encrypted x k full = elim (Bool-cases (is_encrypted x)) [
    | inl e ↦ rw (encrypt-eq_self x k e) e
    | inr e ↦ rw (encrypt_plain x k full e) (is_encrypted-prefix (c.seal k x))
  ]

  -- A text that does not carry the prefix is read back as it was written, whichever key it was
  -- written under, the empty text included.
  pub decrypt-encrypt :
      (x : String) (k : KeyName) → is_encrypted x ≡ false → decrypt c (encrypt c x k) ≡ some x
  decrypt-encrypt x k plain = elim (Bool-cases (str_eq x "")) [
    | inl e ↦ decrypt-encrypt_empty x k e
    | inr e ↦ rw (encrypt_plain x k (λ q. cc (e, (eq_iff x "").1 q)) plain) (decrypt_sealed k x e)
  ]

  -- Where a reader falls back, an encrypted text is still read back as it was written.
  pub decrypt_optional_safe-encrypt :
      (x : String) (k : KeyName) (fallback : Option String)
      → str_eq x "" ≡ false
      → is_encrypted x ≡ false
      → decrypt_optional_safe c (some (encrypt c x k)) fallback ≡ some x
  unfolding decrypt_optional_safe
  decrypt_optional_safe-encrypt x k fallback full plain =
      let stored = encrypt_plain x k (λ q. cc (full, (eq_iff x "").1 q)) plain in
      rw
        (
          stored,
          str_eq-prefix (c.seal k x),
          is_encrypted-prefix (c.seal k x),
          drop_prefix_lem (c.seal k x),
          c.unseal-seal k x full,
        )
        refl

  -- The same where an error is passed on.
  pub decrypt_optional-encrypt :
      (x : String) (k : KeyName)
      → str_eq x "" ≡ false
      → is_encrypted x ≡ false
      → decrypt_optional c (encrypt c x k) ≡ some x
  unfolding decrypt_optional
  decrypt_optional-encrypt x k full plain =
      let stored = encrypt_plain x k (λ q. cc (full, (eq_iff x "").1 q)) plain in
      rw
        (
          stored,
          str_eq-prefix (c.seal k x),
          is_encrypted-prefix (c.seal k x),
          drop_prefix_lem (c.seal k x),
          c.unseal-seal k x full,
        )
        refl

  -- Encrypting a second time, under any key, changes nothing.
  pub encrypt_idempotent :
      (x : String) (k j : KeyName) → encrypt c (encrypt c x k) j ≡ encrypt c x k
  encrypt_idempotent x k j = elim (Bool-cases (str_eq x "")) [
    | inl e ↦ rw (encrypt_empty x k e) (encrypt_empty x j e)
    | inr e ↦
        encrypt-eq_self (encrypt c x k) j
          (encrypt-is_encrypted x k (λ q. cc (e, (eq_iff x "").1 q)))
  ]
