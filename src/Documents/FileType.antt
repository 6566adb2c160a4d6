-- ===== src/Documents/FileType.antt =====
-- File types by their first bytes (src/utils/fileSignature.js), over decoded bytes.
use coparentes_backend.Common.{
  ℕ, suc, ◌+◌, ◌*◌, ◌%◌, Bool, true, false, not, ◌&&◌, ◌||◌, Option, none, some, List, [], ◌∷◌,
  length, any, ltb, leb, ◌==◌, if◌then◌else◌, Result, ok, err, unsupported_file_type,
}
use coparentes_backend.Finances.Receipts.{byte_at}

pub data FileType : Type 0 where
  pdf jpeg png webp heic doc docx txt : FileType

abbrev bytes_at : List ℕ → ℕ → List ℕ → Bool
bytes_at bs i [] = true
bytes_at bs i (c ∷ cs) = byte_at bs i == c && bytes_at bs (suc i) cs

-- `startsWithAscii`
abbrev pub starts_with_ascii : List ℕ → List ℕ → ℕ → Bool
starts_with_ascii bs ascii offset =
    leb (offset + length ascii) (length bs) && bytes_at bs offset ascii

-- `toString('ascii').toLowerCase()`, byte by byte: the decoder drops the high bit.
abbrev lower_ascii : ℕ → ℕ
lower_ascii b = let c = b % 128 in if leb 65 c && leb c 90 then c + 32 else c

abbrev brand_at_8 : List ℕ → List ℕ → Bool
brand_at_8 bs cs = brand_from 8 cs
  where
    brand_from : ℕ → List ℕ → Bool
    brand_from i [] = true
    brand_from i (c ∷ cs) = lower_ascii (byte_at bs i) == c && brand_from (suc i) cs

abbrev heic_brands : List (List ℕ)
heic_brands =
    (b'h' ∷ b'e' ∷ b'i' ∷ b'c' ∷ [])
    ∷ (b'h' ∷ b'e' ∷ b'i' ∷ b'f' ∷ [])
    ∷ (b'm' ∷ b'i' ∷ b'f' ∷ b'1' ∷ [])
    ∷ (b'm' ∷ b's' ∷ b'f' ∷ b'1' ∷ [])
    ∷ (b'h' ∷ b'e' ∷ b'i' ∷ b'x' ∷ [])
    ∷ (b'h' ∷ b'e' ∷ b'i' ∷ b'm' ∷ [])
    ∷ []

-- `detectFileTypeFromBase64`, on the first 16 decoded bytes.
unfoldable pub detect_file_type : List ℕ → Option FileType
detect_file_type bs =
    if ltb (length bs) 4
    then none
    else if starts_with_ascii bs (b'%' ∷ b'P' ∷ b'D' ∷ b'F' ∷ []) 0
    then some pdf
    else if bytes_at bs 0 (0xff ∷ 0xd8 ∷ 0xff ∷ [])
    then some jpeg
    else if bytes_at bs 0 (0x89 ∷ 0x50 ∷ 0x4e ∷ 0x47 ∷ [])
    then some png
    else if starts_with_ascii bs (b'R' ∷ b'I' ∷ b'F' ∷ b'F' ∷ []) 0
        && (leb 12 (length bs) && starts_with_ascii bs (b'W' ∷ b'E' ∷ b'B' ∷ b'P' ∷ []) 8)
    then some webp
    else if leb 12 (length bs)
        && (starts_with_ascii bs (b'f' ∷ b't' ∷ b'y' ∷ b'p' ∷ []) 4
            && any (brand_at_8 bs) heic_brands)
    then some heic
    else if bytes_at bs 0 (0xd0 ∷ 0xcf ∷ 0x11 ∷ 0xe0 ∷ [])
    then some doc
    else if bytes_at bs 0 (0x50 ∷ 0x4b ∷ [])
    then some docx
    else none

abbrev pub is_odd_control : ℕ → Bool
is_odd_control b =
    not (b == 0x09 || (b == 0x0a || b == 0x0d))
    && (not (leb 0x20 b && leb b 0x7e) && not (leb 0x80 b))

-- The loop of `looksLikePlainText`: `none` where it returns at a zero byte.
unfoldable pub count_odd_controls : List ℕ → Option ℕ
count_odd_controls [] = some 0
count_odd_controls (b ∷ bs) =
    let rest = count_odd_controls bs in
    if b == 0
    then none
    else elim rest [ none ↦ none | some n ↦ some ((if is_odd_control b then 1 else 0) + n) ]

-- `looksLikePlainText`; `oddControls / length > 0.05` is multiplied out.
unfoldable pub looks_like_plain_text : List ℕ → Bool
unfolding count_odd_controls
looks_like_plain_text bs = if length bs == 0 then false else elim (count_odd_controls bs) [
  | none ↦ false
  | some n ↦ not (ltb 2 n) && not (ltb (length bs) (20 * n))
]

-- `assertAllowedDocumentContent`, on the first 16 and the first 512 decoded bytes, and on whether the
-- name or the type claims plain text.
unfoldable pub assert_allowed_document_content : List ℕ → List ℕ → Bool → Result FileType
unfolding detect_file_type looks_like_plain_text
assert_allowed_document_content head sample claims_text = elim (detect_file_type head) [
  | some t ↦ ok t
  | none ↦
      if claims_text
      then if looks_like_plain_text sample then ok txt else err unsupported_file_type
      else err unsupported_file_type
]
