-- ===== src/Crypto/Payload/Opened.antt =====
-- What `encrypt` writes, `decrypt` reads.
use Prim.Native.String
use coparentes_backend.Common.{
  ◌≡◌, refl, inl, inr, true, false, some, String, str_eq, [], ◌∷◌, Bool-cases,
}
use coparentes_backend.Crypto.{
  KeyName, key_health, key_finance, key_messages, key_general, Cipher, encrypt, decrypt, prefix,
  is_encrypted,
}
use coparentes_backend.Crypto.RoundTrip.{drop_prefix_lem, str_eq-prefix, is_encrypted-prefix}
use coparentes_backend.Crypto.Payload.{
  Gcm, key_text, has_no_colon, split_colons, resolve_key_material, join_colons, payload_with,
  seal_payload, opened_with, open_payload, encrypt_text, decrypt_text,
}
use coparentes_backend.Crypto.Payload.Colons.{split_colons_last, split_colons-append}

key_text_plain :
    (k : KeyName) → (has_no_colon (key_text k) ≡ true) × (str_eq (key_text k) "" ≡ false)
unfolding has_no_colon
key_text_plain key_health = (refl, refl)
key_text_plain key_finance = (refl, refl)
key_text_plain key_messages = (refl, refl)
key_text_plain key_general = (refl, refl)

module _ (g : Gcm) where
  split_joined :
      (a b c d : String)
      → has_no_colon a ≡ true
      → has_no_colon b ≡ true
      → has_no_colon c ≡ true
      → has_no_colon d ≡ true
      → split_colons (join_colons g a b c d) ≡ (a, b ∷ c ∷ d ∷ [])
  split_joined a b c d ha hb hc hd =
      rw
        (
          split_colons-append a _ ha,
          split_colons-append b _ hb,
          split_colons-append c _ hc,
          split_colons_last d hd,
        )
        refl

  opens_with :
      (key iv : g.Bytes) (x : String)
      → opened_with g
          (some key)
          (g.to_base64url iv)
          (g.to_base64url (g.encipher key iv x).1)
          (g.to_base64url (g.encipher key iv x).0)
        ≡ some x
  opens_with key iv x =
      rw
        (
          opened_with,
          g.from-to iv,
          g.from-to (g.encipher key iv x).1,
          g.from-to (g.encipher key iv x).0,
        )
        (g.decipher-encipher key iv x)

  pub payload_opens :
      (key iv : g.Bytes) (x : String) (k : KeyName)
      → resolve_key_material g (key_text k) ≡ some key
      → str_eq (g.to_base64url iv) "" ≡ false
      → str_eq x "" ≡ false
      → open_payload g (payload_with g (key_text k) iv (g.encipher key iv x)) ≡ some x
  unfolding open_payload
  payload_opens key iv x k found drawn full =
      let (plain, named) = key_text_plain k in
      let sent = g.encipher key iv x in
      rw
        (
          split_joined (key_text k) (g.to_base64url iv) (g.to_base64url sent.1)
              (g.to_base64url sent.0) plain (g.to_no_colon iv) (g.to_no_colon sent.1)
              (g.to_no_colon sent.0),
          named,
          drawn,
          g.tag_filled key iv x,
          g.ciphertext_filled key iv x full,
          found,
        )
        (opens_with key iv x)

  -- Where the key's variable holds 32 bytes, `encrypt` with a vector that is not empty returns for every text that does not carry the prefix.
  -- A text that is not empty then carries it, and `decrypt` gives the text back from what the stored value says alone: the name of the key, the
  -- vector, the tag and the ciphertext.
  pub decrypt_text-encrypt_text :
      (key iv : g.Bytes) (x : String) (k : KeyName)
      → resolve_key_material g (key_text k) ≡ some key
      → str_eq (g.to_base64url iv) "" ≡ false
      → is_encrypted x ≡ false
      → (y : String) × (encrypt_text g iv x k ≡ some y)
        × (str_eq x "" ≡ false → is_encrypted y ≡ true)
        × (decrypt_text g y ≡ some x)
  unfolding encrypt_text decrypt_text seal_payload
  decrypt_text-encrypt_text key iv x k found drawn plain = elim (Bool-cases (str_eq x "")) [
    | inl empty ↦ rw empty (x, refl, λ full. absurd (cc (empty, full)), rw empty refl)
    | inr full ↦
        let payload = payload_with g (key_text k) iv (g.encipher key iv x) in
        rw (full, plain, found)
          (
            String.◌++◌ prefix payload,
            refl,
            λ e. is_encrypted-prefix payload,
            rw (str_eq-prefix payload, is_encrypted-prefix payload, drop_prefix_lem payload)
                (payload_opens key iv x k found drawn full),
          )
  ]

  -- Every key's variable holds 32 bytes, which src/utils/secretsValidation.js demands at the start, and a vector is drawn for each call.
  pub record Configured : Type 1 where
    pub key : KeyName → g.Bytes
    pub drawn : KeyName → String → g.Bytes
    pub resolved : (k : KeyName) → resolve_key_material g (key_text k) ≡ some (key k)
    pub drawn_filled : (k : KeyName) (x : String) → str_eq (g.to_base64url (drawn k x)) "" ≡ false

  -- The cipher that the other parts of the program use.
  abbrev pub configured_cipher : Configured → Cipher
  configured_cipher f = record {
    seal = λ k x. payload_with g (key_text k) (f.drawn k x) (g.encipher (f.key k) (f.drawn k x) x);
    unseal = open_payload g;
    unseal-seal = λ k x full.
        payload_opens (f.key k) (f.drawn k x) x k (f.resolved k) (f.drawn_filled k x) full;
  }

  -- With it, `encrypt` and `decrypt` over the cipher are those over the payload.
  pub encrypt-encrypt_text :
      (f : Configured) (x y : String) (k : KeyName)
      → (encrypt_text g (f.drawn k x) x k ≡ some (encrypt (configured_cipher f) x k))
        × (decrypt_text g y ≡ decrypt (configured_cipher f) y)
  unfolding encrypt_text decrypt_text seal_payload encrypt decrypt
  encrypt-encrypt_text f x y k = (
    elim (Bool-cases (str_eq x "")) [
      | inl empty ↦ rw empty refl
      | inr full ↦ elim (Bool-cases (is_encrypted x)) [
        | inl already ↦ rw (full, already) refl
        | inr plain ↦ rw (full, plain, f.resolved k) refl
      ]
    ],
    refl,
  )
