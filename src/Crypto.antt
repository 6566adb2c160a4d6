-- ===== src/Crypto.antt =====
-- Field encryption at rest (src/services/crypto.service.js): the prefix protocol over an interface, where `seal` gives the
-- text behind the prefix, and `unseal` what `decrypt` does with it, `none` where it throws. Payload models that text and fills
-- the interface, with a key for every name.
pub mod RoundTrip
pub mod Payload
pub mod Sample
mod Tests
use Prim.Native.String
use text.Mathlib.Text.{starts_with}
use coparentes_backend.Common.{
  ◌≡◌, Bool, true, false, Option, none, some, String, str_eq, if◌then◌else◌,
}

-- `CRYPTO_KEYS`
pub data KeyName : Type 0 where
  key_health key_finance key_messages key_general : KeyName

pub record Cipher : Type 0 where
  pub seal : KeyName → String → String
  pub unseal : String → Option String
  pub unseal-seal : (k : KeyName) (x : String) → str_eq x "" ≡ false → unseal (seal k x) ≡ some x

abbrev pub prefix : String
prefix = "enc:v1:"

unfoldable pub is_encrypted : String → Bool
is_encrypted value = starts_with value prefix

-- `value.slice(PREFIX.length)`, for a value that starts with the prefix.
abbrev pub drop_prefix : String → String
drop_prefix v = String.slice v (String.len prefix) (String.len v)

module _ (c : Cipher) where
  unfoldable pub encrypt : String → KeyName → String
  unfolding is_encrypted
  encrypt value k =
      if str_eq value ""
      then value
      else if is_encrypted value
      then value
      else String.◌++◌ prefix (c.seal k value)

  -- `none` where the code throws: the payload does not open.
  unfoldable pub decrypt : String → Option String
  unfolding is_encrypted
  decrypt value =
      if str_eq value ""
      then some value
      else if is_encrypted value
      then c.unseal (drop_prefix value)
      else some value

  -- `encryptOptional`: `null` stays `null`.
  unfoldable pub encrypt_optional : Option String → KeyName → Option String
  unfolding encrypt
  encrypt_optional none k = none
  encrypt_optional (some value) k = some (encrypt value k)

  -- `decryptOptional`, for a value that is present.
  unfoldable pub decrypt_optional : String → Option String
  unfolding decrypt
  decrypt_optional value = if str_eq value "" then some value else decrypt value

  -- `decryptOptionalSafe`; the fallback may be `null`.
  unfoldable pub decrypt_optional_safe : Option String → Option String → Option String
  unfolding decrypt
  decrypt_optional_safe none fallback = fallback
  decrypt_optional_safe (some value) fallback =
      if str_eq value "" then fallback else elim (decrypt value) [
        | some plain ↦ some plain
        | none ↦ if is_encrypted value then fallback else some value
      ]
