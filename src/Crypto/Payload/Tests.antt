-- ===== src/Crypto/Payload/Tests.antt =====
-- A note under two keys of the toy `Gcm`.
use coparentes_backend.Common.{◌≡◌, refl, true, false, none, some, String, str_eq}
use coparentes_backend.Crypto.{key_finance, is_encrypted}
use coparentes_backend.Crypto.Payload.{resolve_key_material, encrypt_text, decrypt_text}
use coparentes_backend.Crypto.Payload.Toy.{toy_gcm, escape, unescape}
use coparentes_backend.Crypto.Payload.Opened.{decrypt_text-encrypt_text}

sealed :
    encrypt_text toy_gcm "iv" "a:b" key_finance ≡ some "enc:v1:KEY_FINANCE:iv:tKEY_FINANCEiv:a%cb"
unfolding encrypt_text resolve_key_material escape is_encrypted
sealed = refl

-- The same payload under the name of another key does not open.
other_key : decrypt_text toy_gcm "enc:v1:KEY_HEALTH:iv:tKEY_FINANCEiv:a%cb" ≡ none
unfolding decrypt_text resolve_key_material unescape is_encrypted
other_key = refl

decrypt_text-encrypt_text_example :
    (y : String) × (encrypt_text toy_gcm "iv" "a:b" key_finance ≡ some y)
    × (str_eq "a:b" "" ≡ false → is_encrypted y ≡ true)
    × (decrypt_text toy_gcm y ≡ some "a:b")
unfolding resolve_key_material is_encrypted escape
decrypt_text-encrypt_text_example =
    decrypt_text-encrypt_text toy_gcm "KEY_FINANCE" "iv" "a:b" key_finance refl refl refl
