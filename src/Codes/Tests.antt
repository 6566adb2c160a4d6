-- ===== src/Codes/Tests.antt =====
-- The code of two bytes.
use coparentes_backend.Common.{◌+◌, ◌*◌, ◌^◌, ◌≡◌, ◌<◌, refl, [], ◌∷◌, length, arith}
use coparentes_backend.Codes.{encode_crockford_base32, take_digits}
use coparentes_backend.Codes.Fuel.{take_digits-stops}
use coparentes_backend.Codes.Base32.{number, padding, encode-number}

two_bytes : encode_crockford_base32 (255 ∷ 1 ∷ []) ≡ 31 ∷ 28 ∷ 0 ∷ 16 ∷ []
unfolding encode_crockford_base32
two_bytes = refl

encode-number_example :
    (5 * length (encode_crockford_base32 (255 ∷ 1 ∷ [])) ≡ 8 * 2 + padding (8 * 2))
    × (number 32 0 (encode_crockford_base32 (255 ∷ 1 ∷ [])) ≡ 65281 * 2 ^ padding (8 * 2))
encode-number_example = encode-number (255 ∷ 1 ∷ []) (omega arith, (omega arith, tt))

take_digits-stops_example :
    ((take_digits 8 255 8 []).0 < 5) × (take_digits 11 255 8 [] ≡ take_digits 8 255 8 [])
take_digits-stops_example = take_digits-stops 8 11 255 8 [] (omega arith) (omega arith)
