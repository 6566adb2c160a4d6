-- ===== src/Finances/Receipts.antt =====
-- Checks on receipt images (src/services/receiptOcr.js), over the decoded bytes.
use Prim.Native.Nat.{ℕ, zero, suc}
use coparentes_backend.Common.{
  ◌*◌, ◌%◌, Bool, true, ◌&&◌, List, [], ◌∷◌, length, ltb, ◌==◌, if◌then◌else◌, Result, ok, err,
  throw_if, ◌>>◌, receipt_empty, receipt_too_large, receipt_unsupported_format,
}

pub data ImageType : Type 0 where
  jpeg png webp : ImageType

abbrev pub max_receipt_bytes : ℕ
max_receipt_bytes = 512 * 1024

-- `buffer[i]`, where the index is known to be in range.
abbrev pub byte_at : List ℕ → ℕ → ℕ
byte_at [] i = 0
byte_at (b ∷ bs) zero = b
byte_at (b ∷ bs) (suc i) = byte_at bs i

-- `buffer.toString('ascii', i, i + n) === text`: the decoder drops each byte's high bit.
abbrev pub ascii_at : List ℕ → ℕ → List ℕ → Bool
ascii_at bs i [] = true
ascii_at bs i (c ∷ cs) = byte_at bs i % 128 == c && ascii_at bs (suc i) cs

unfoldable pub detect_receipt_image_type : List ℕ → Result ImageType
detect_receipt_image_type bs =
    if ltb (length bs) 64
    then err receipt_unsupported_format
    else if byte_at bs 0 == 0xff && byte_at bs 1 == 0xd8 && byte_at bs 2 == 0xff
    then ok jpeg
    else if byte_at bs 0 == 0x89
        && byte_at bs 1 == 0x50
        && byte_at bs 2 == 0x4e
        && byte_at bs 3 == 0x47
    then ok png
    else if ascii_at bs 0 (b'R' ∷ b'I' ∷ b'F' ∷ b'F' ∷ [])
        && ascii_at bs 8 (b'W' ∷ b'E' ∷ b'B' ∷ b'P' ∷ [])
    then ok webp
    else err receipt_unsupported_format

-- `validateReceiptBase64` behind the decoding of a text that is not empty.
unfoldable pub validate_receipt : List ℕ → Result (List ℕ)
unfolding detect_receipt_image_type
validate_receipt bs = do
  throw_if (length bs == 0) receipt_empty
  throw_if (ltb max_receipt_bytes (length bs)) receipt_too_large
  detect_receipt_image_type bs
  ok bs
