-- ===== src/Crypto/Payload.antt =====
-- The text behind the prefix (src/services/crypto.service.js): the name of the key, the initialization vector, the tag and the
-- ciphertext, joined by colons. AES-256-GCM, base64 and the environment are arguments; a drawn vector is one too.
pub mod Colons
pub mod Opened
mod Toy
mod Tests
use Prim.Native.Char.{code}
use Prim.Native.String
use coparentes_backend.Common.{
  ◌≡◌, ℕ, Bool, true, false, ◌||◌, Option, none, some, String, str_eq, List, [], ◌∷◌, ◌==◌,
  if◌then◌else◌,
}
use coparentes_backend.Crypto.{
  KeyName, key_health, key_finance, key_messages, key_general, prefix, is_encrypted, drop_prefix,
}

-- `CRYPTO_KEYS`, as the names of environment variables.
abbrev pub key_text : KeyName → String
key_text key_health = "KEY_HEALTH"
key_text key_finance = "KEY_FINANCE"
key_text key_messages = "KEY_MESSAGES"
key_text key_general = "KEY_GENERAL"

-- No character is a colon.
unfoldable pub has_no_colon : String → Bool
has_no_colon String.[] = true
has_no_colon (String.◌∷◌ c s) = if code c == 58 then false else has_no_colon s

-- `split(':')`: the first part and the others.
unfoldable pub split_colons : String → String × List String
split_colons String.[] = ("", [])
split_colons (String.◌∷◌ c s) =
    let rest = split_colons s in
    if code c == 58 then ("", rest.0 ∷ rest.1) else (String.◌∷◌ c rest.0, rest.1)

-- What the code takes from node:crypto, Buffer and the environment (`env` gives the empty text for a name that is not
-- set). A vector and a tag are bytes; `decipher` is `none` where `final` throws.
pub record Gcm : Type 1 where
  pub Bytes : Type 0
  pub env : String → String
  pub trim : String → String
  pub from_base64 : String → Bytes
  pub byte_length : Bytes → ℕ
  pub to_base64url : Bytes → String
  pub from_base64url : String → Bytes
  -- `encipher(key, iv, plaintext)` gives the ciphertext and the tag.
  pub encipher : Bytes → Bytes → String → Bytes × Bytes
  -- `decipher(key, iv, tag, ciphertext)`
  pub decipher : Bytes → Bytes → Bytes → Bytes → Option String
  -- The same key, vector and tag give the plaintext back.
  pub decipher-encipher :
      (key iv : Bytes) (x : String)
      → decipher key iv (encipher key iv x).1 (encipher key iv x).0 ≡ some x
  -- base64url reads its own texts, which hold no colon; that of no bytes alone is empty.
  pub from-to : (b : Bytes) → from_base64url (to_base64url b) ≡ b
  pub to_no_colon : (b : Bytes) → has_no_colon (to_base64url b) ≡ true
  pub tag_filled :
      (key iv : Bytes) (x : String) → str_eq (to_base64url (encipher key iv x).1) "" ≡ false
  pub ciphertext_filled :
      (key iv : Bytes) (x : String)
      → str_eq x "" ≡ false
      → str_eq (to_base64url (encipher key iv x).0) "" ≡ false

module _ (g : Gcm) where
  -- `resolveKeyMaterial`, `none` where it throws.
  unfoldable pub resolve_key_material : String → Option g.Bytes
  resolve_key_material name =
      let configured = g.trim (g.env name) in
      if str_eq configured ""
      then none
      else if g.byte_length (g.from_base64 configured) == 32
      then some (g.from_base64 configured)
      else none

  abbrev pub join_colons : String → String → String → String → String
  join_colons a b c d =
      String.◌++◌ a
        (String.◌++◌ ":" (String.◌++◌ b (String.◌++◌ ":" (String.◌++◌ c (String.◌++◌ ":" d)))))

  abbrev pub payload_with : String → g.Bytes → g.Bytes × g.Bytes → String
  payload_with name iv (ciphertext, tag) =
      join_colons name (g.to_base64url iv) (g.to_base64url tag) (g.to_base64url ciphertext)

  abbrev pub sealed_with : Option g.Bytes → g.Bytes → String → String → Option String
  sealed_with none iv x name = none
  sealed_with (some key) iv x name = some (payload_with name iv (g.encipher key iv x))

  -- The payload that `encrypt` writes behind the prefix.
  unfoldable pub seal_payload : g.Bytes → String → String → Option String
  seal_payload iv x name = sealed_with (resolve_key_material name) iv x name

  abbrev pub opened_with : Option g.Bytes → String → String → String → Option String
  opened_with none b c d = none
  opened_with (some key) b c d =
      g.decipher key (g.from_base64url b) (g.from_base64url c) (g.from_base64url d)

  -- The parts of a payload; a part that is missing or empty throws, parts behind the fourth are not read.
  abbrev pub open_parts : String × List String → Option String
  open_parts (a, b ∷ c ∷ d ∷ _) =
      if str_eq a "" || (str_eq b "" || (str_eq c "" || str_eq d ""))
      then none
      else opened_with (resolve_key_material a) b c d
  open_parts (a, _) = none

  -- What `decrypt` does with the text behind the prefix; the stored name is not empty there, so the caller's is not used.
  unfoldable pub open_payload : String → Option String
  unfolding split_colons
  open_payload payload = open_parts (split_colons payload)

  abbrev pub prefixed : Option String → Option String
  prefixed none = none
  prefixed (some payload) = some (String.◌++◌ prefix payload)

  -- `encrypt` with the vector that it draws, `none` where it throws.
  unfoldable pub encrypt_text : g.Bytes → String → KeyName → Option String
  unfolding seal_payload
  encrypt_text iv x k =
      if str_eq x ""
      then some x
      else if is_encrypted x
      then some x
      else prefixed (seal_payload iv x (key_text k))

  -- `decrypt`, `none` where it throws.
  unfoldable pub decrypt_text : String → Option String
  unfolding open_payload
  decrypt_text value =
      if str_eq value ""
      then some value
      else if is_encrypted value
      then open_payload (drop_prefix value)
      else some value
