-- ===== src/Crypto/Tests.antt =====
-- Field encryption with a toy cipher.
use coparentes_backend.Common.{◌≡◌, refl}
use coparentes_backend.Crypto.{key_finance, encrypt}
use coparentes_backend.Crypto.Sample.{toy_cipher}

note_encrypted : encrypt toy_cipher "note" key_finance ≡ "enc:v1:!note"
unfolding encrypt
note_encrypted = refl
