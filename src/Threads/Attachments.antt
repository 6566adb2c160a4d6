-- ===== src/Threads/Attachments.antt =====
-- The attachments of a message (src/services/messageAttachments.js). Operations on texts and on JSON that the platform
-- gives are an argument. A number is an integer.
pub mod Limits
use Prim.Native.String
use mathlib.Core.Option.{get_or}
use coparentes_backend.Common.{
  ℕ, zero, suc, ◌+◌, ◌-◌, ◌*◌, ◌/◌, ◌≡◌, Bool, true, false, not, ◌||◌, Option, none, some, String,
  str_eq, List, [], ◌∷◌, length, leb, ltb, if◌then◌else◌, Result, ok, throw_if, ◌>>=◌, ◌>>◌,
  too_many_attachments, invalid_attachment, attachment_too_large,
}
use coparentes_backend.Common.Store.{find}
use coparentes_backend.Crypto.{is_encrypted}

pub data ℤ : Type 0 where
  pos negsuc : ℕ → ℤ

abbrev pub difference : ℕ → ℕ → ℤ
difference m n = if leb n m then pos (m - n) else negsuc (n - m - 1)

abbrev pub is_positive : ℤ → Bool
is_positive (pos n) = ltb 0 n
is_positive (negsuc n) = false

abbrev pub exceeds : ℤ → ℕ → Bool
exceeds (pos n) m = ltb m n
exceeds (negsuc n) m = false

-- An attachment as a client sends it, or as JSON gives it back: each field may be missing.
pub record RawAttachment : Type 0 where
  pub id : Option String
  pub name : Option String
  pub media_type : Option String
  pub size_bytes : Option ℤ
  pub content_base64 : Option String

pub record Attachment : Type 0 where
  pub id : String
  pub name : String
  pub media_type : String
  pub size_bytes : ℤ
  pub content_base64 : String

-- An attachment that was read back.
pub record StoredAttachment : Type 0 where
  pub id : String
  pub name : String
  pub media_type : String
  pub size_bytes : ℤ
  pub content_base64 : Option String

abbrev pub raw_of : Attachment → RawAttachment
raw_of a = record {
  id = some a.id;
  name = some a.name;
  media_type = some a.media_type;
  size_bytes = some a.size_bytes;
  content_base64 = some a.content_base64;
}

abbrev pub raws_of : List Attachment → List RawAttachment
raws_of [] = []
raws_of (a ∷ xs) = raw_of a ∷ raws_of xs

-- `trim`, `replace(/\s/g, '')`, the length, the number of `=` at the end, and the decimal text of a number; `JSON.stringify` and
-- `JSON.parse` on lists of attachments, with `none` for a text that is not JSON of a list.
pub record AttachmentOps : Type 0 where
  pub trim : String → String
  pub without_spaces : String → String
  pub len : String → ℕ
  pub padding : String → ℕ
  pub decimal : ℕ → String
  pub to_json : List Attachment → String
  pub parse : String → Option (List RawAttachment)

-- JSON gives back a list, and its text begins with a bracket: it is not empty and has no prefix of encrypted texts.
pub record ReadsBack (o : AttachmentOps) (xs : List Attachment) : Type 0 where
  pub parse-to_json : o.parse (o.to_json xs) ≡ some (raws_of xs)
  pub parse_brackets : o.parse "[]" ≡ some []
  pub filled : str_eq (o.to_json xs) "" ≡ false
  pub plain : is_encrypted (o.to_json xs) ≡ false

abbrev pub max_message_attachments : ℕ
max_message_attachments = 3

abbrev pub max_message_attachment_bytes : ℕ
max_message_attachment_bytes = 262144

-- `att.sizeBytes` where it is a positive number.
abbrev pub declared_or : Option ℤ → ℤ → ℤ
declared_or none decoded = decoded
declared_or (some n) decoded = if is_positive n then n else decoded

-- `findAttachment`
unfoldable pub find_attachment : List StoredAttachment → String → Option StoredAttachment
find_attachment xs id = find (λ a. str_eq a.id id) xs

module _ (o : AttachmentOps) where
  -- `decodedBase64ByteLength`
  unfoldable pub decoded_base64_byte_length : String → ℤ
  decoded_base64_byte_length base64 =
      let normalized = o.without_spaces base64 in
      difference (o.len normalized * 3 / 4) (o.padding normalized)

  abbrev pub att_id : ℕ → String
  att_id index = String.◌++◌ "att_" (o.decimal (index + 1))

  -- The size that `normalizeAttachments` checks.
  unfoldable pub attachment_size : RawAttachment → ℤ
  unfolding decoded_base64_byte_length
  attachment_size r =
      declared_or r.size_bytes (decoded_base64_byte_length (o.trim (get_or r.content_base64 "")))

  abbrev pub attachment_of : ℕ → RawAttachment → Attachment
  attachment_of index r = record {
    id = get_or r.id (att_id index);
    name = o.trim (get_or r.name "attachment");
    media_type = o.trim (get_or r.media_type "application/octet-stream");
    size_bytes = attachment_size r;
    content_base64 = o.trim (get_or r.content_base64 "");
  }

  -- One round of `normalizeAttachments`.
  unfoldable pub normalize_one : ℕ → RawAttachment → Result Attachment
  unfolding attachment_size
  normalize_one index r = do
    let a = attachment_of index r
    throw_if (str_eq a.name "" || str_eq a.content_base64 "") invalid_attachment
    throw_if (exceeds a.size_bytes max_message_attachment_bytes) attachment_too_large
    ok a

  unfoldable pub normalize_each : ℕ → List RawAttachment → Result (List Attachment)
  unfolding normalize_one
  normalize_each index [] = ok []
  normalize_each index (r ∷ rs) = do
    a ← normalize_one index r
    xs ← normalize_each (suc index) rs
    ok (a ∷ xs)

  -- `normalizeAttachments`
  unfoldable pub normalize_attachments : List RawAttachment → Result (List Attachment)
  unfolding normalize_each
  normalize_attachments rs =
      throw_if (ltb max_message_attachments (length rs)) too_many_attachments >> normalize_each 0 rs

  -- What the message stores, before encryption: nothing where there are no attachments.
  abbrev pub attachments_text : List Attachment → Option String
  attachments_text [] = none
  attachments_text (a ∷ xs) = some (o.to_json (a ∷ xs))

  abbrev pub stored_of : ℕ → RawAttachment → StoredAttachment
  stored_of index r = record {
    id = get_or r.id (att_id index);
    name = get_or r.name "attachment";
    media_type = get_or r.media_type "application/octet-stream";
    size_bytes = get_or r.size_bytes (pos 0);
    content_base64 = r.content_base64;
  }

  abbrev pub stored_each : ℕ → List RawAttachment → List StoredAttachment
  stored_each index [] = []
  stored_each index (r ∷ rs) = stored_of index r ∷ stored_each (suc index) rs

  abbrev pub stored_or_empty : Option (List RawAttachment) → List StoredAttachment
  stored_or_empty none = []
  stored_or_empty (some rs) = stored_each 0 rs

  -- `parseStoredAttachments`
  unfoldable pub parse_stored_attachments : Option String → List StoredAttachment
  parse_stored_attachments none = []
  parse_stored_attachments (some json) =
      if str_eq json "" then [] else stored_or_empty (o.parse json)
