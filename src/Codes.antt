-- ===== src/Codes.antt =====
-- Recovery codes (`encodeCrockfordBase32` and `createRecoveryCode` of src/utils/security.js). A digit is its place in
-- the alphabet, and 32-bit words are numbers below 2 ^ 32.
pub mod Base32
pub mod Fuel
mod Tests
use coparentes_backend.Common.{
  ℕ, zero, suc, ◌+◌, ◌-◌, ◌*◌, ◌/◌, ◌%◌, ◌^◌, List, [], ◌∷◌, ◌++◌, leb, ltb, if◌then◌else◌,
}

-- The inner loop, which runs on the number of bits: each round takes five.
unfoldable pub take_digits : ℕ → ℕ → ℕ → List ℕ → ℕ × List ℕ
take_digits zero value bits output = (bits, output)
take_digits (suc fuel) value bits output =
    let rest = take_digits fuel value (bits - 5) (output ++ (value / 2 ^ (bits - 5) % 32) ∷ []) in
    if leb 5 bits then rest else (bits, output)

-- `if (bits > 0)` at the end: the last digit is filled with zeros.
unfoldable pub last_digit : ℕ → ℕ → List ℕ → List ℕ
last_digit value bits output =
    if ltb 0 bits then output ++ (value * 2 ^ (5 - bits) % 2 ^ 32 % 32) ∷ [] else output

-- The outer loop; a byte fills the eight bits that the shift has freed.
unfoldable pub encode_from : List ℕ → ℕ → ℕ → List ℕ → List ℕ
unfolding take_digits last_digit
encode_from [] value bits output = last_digit value bits output
encode_from (byte ∷ bytes) value bits output =
    let next = value * 256 % 2 ^ 32 + byte in
    let (left, digits) = take_digits (8 + bits) next (8 + bits) output in
    encode_from bytes next left digits

-- `encodeCrockfordBase32`
unfoldable pub encode_crockford_base32 : List ℕ → List ℕ
unfolding encode_from
encode_crockford_base32 bytes = encode_from bytes 0 0 []
