-- ===== src/Documents/Vault.antt =====
-- The operations of src/services/documents.js. `serializeDocument` is left out: the calls return the
-- row. Decoding, and the case folding of a category, belong to the platform.
use coparentes_backend.Common.{
  ℕ, ◌+◌, ◌*◌, Bool, not, ◌&&◌, ◌||◌, Option, none, some, List, [], ◌∷◌, String, str_eq, length,
  any, leb, ltb, ◌==◌, is_some, if◌then◌else◌, Result, ok, err, throw_if, ◌>>◌,
  invalid_document_category, workspace_document_limit_reached, workspace_storage_limit_reached,
  child_not_found, document_not_found, forbidden,
}
use coparentes_backend.Common.Store.{Store}
use coparentes_backend.Crypto.{
  Cipher, KeyName, key_health, key_general, encrypt_optional, decrypt_optional,
}
use coparentes_backend.Documents.FileType.{assert_allowed_document_content}
use coparentes_backend.Finances.Expenses.{Child, present}

pub record Document : Type 0 where
  pub id : ℕ
  pub workspace_id : ℕ
  pub title : String
  pub category : String
  pub child_id : Option ℕ
  pub file_name : Option String
  pub mime_type : Option String
  pub file_url : Option String
  pub content : Option String
  pub size_bytes : ℕ
  pub uploaded_by_id : ℕ

pub record NewDocument : Type 0 where
  pub workspace_id : ℕ
  pub uploaded_by_id : ℕ
  pub title : String
  pub category : String
  pub child_id : Option ℕ
  pub file_name : Option String
  pub mime_type : Option String
  pub content : Option String

-- What the service takes from the platform: decoded bytes (all, and the first 16 and 512), the test on
-- the name and type, and `toLowerCase`.
pub record Platform : Type 0 where
  pub cipher : Cipher
  pub decode : String → List ℕ
  pub peek : String → ℕ → List ℕ
  pub claims_text : Option String → Option String → Bool
  pub lower_case : String → String

pub record Db (s : Store) : Type 0 where
  pub documents : s.Table Document
  pub children : s.Table Child

abbrev pub private_category : String
private_category = "Private"

-- `isPrivateDocument`
abbrev pub is_private : Document → Bool
is_private d = str_eq d.category private_category

-- `isAllowedDocumentCategory`
abbrev pub is_allowed_category : String → Bool
is_allowed_category c =
    any (str_eq c) ("Agreements" ∷ "School" ∷ "Medical" ∷ "Shared" ∷ "Private" ∷ [])

abbrev pub document_count_limit : ℕ
document_count_limit = 200

abbrev pub document_storage_limit : ℕ
document_storage_limit = 100 * 1024 * 1024

-- `assertWorkspaceDocumentQuota`
unfoldable pub assert_quota : ℕ → ℕ → ℕ → Result (Unit {0})
assert_quota existing_count existing_bytes incoming = do
  throw_if (leb document_count_limit existing_count) workspace_document_limit_reached
  throw_if (ltb document_storage_limit (existing_bytes + incoming)) workspace_storage_limit_reached
  ok tt

-- `_sum: { sizeBytes: true }`
abbrev pub total_bytes : List Document → ℕ
total_bytes [] = 0
total_bytes (d ∷ ds) = d.size_bytes + total_bytes ds

-- `documentContentKey`
abbrev pub document_content_key : (String → String) → String → KeyName
document_content_key lower_case c =
    if str_eq (lower_case c) "medical" then key_health else key_general

-- `where: { workspaceId }`
abbrev pub in_workspace : ℕ → Document → Bool
in_workspace ws d = d.workspace_id == ws

module _ (s : Store) (p : Platform) where
  -- `if (childId)`: the child is one of the workspace.
  unfoldable pub check_child : Db s → ℕ → Option ℕ → Result (Unit {0})
  check_child db ws none = ok tt
  check_child db ws (some id) =
      throw_if
        (not (is_some (s.find_first (λ ch. ch.id == id && ch.workspace_id == ws) db.children)))
        child_not_found

  unfoldable pub check_content : NewDocument → Option String → Result (Unit {0})
  check_content x none = ok tt
  check_content x (some c) =
      assert_allowed_document_content (p.peek c 16) (p.peek c 512)
        (p.claims_text x.file_name x.mime_type)
      >> ok tt

  -- `decodedContentByteLength`
  abbrev pub decoded_length : Option String → ℕ
  decoded_length none = 0
  decoded_length (some c) = length (p.decode c)

  unfoldable pub document_row : ℕ → NewDocument → Document
  document_row id x = record {
    id = id;
    workspace_id = x.workspace_id;
    title = x.title;
    category = x.category;
    child_id = x.child_id;
    file_name = x.file_name;
    mime_type = x.mime_type;
    file_url = none;
    content =
        encrypt_optional p.cipher (present x.content)
          (document_content_key p.lower_case x.category);
    size_bytes = decoded_length (present x.content);
    uploaded_by_id = x.uploaded_by_id;
  }

  -- `createDocument`
  unfoldable pub create_document : Db s → ℕ → NewDocument → Result (Document × Db s)
  create_document db id x = do
    throw_if (not (is_allowed_category x.category)) invalid_document_category
    check_child db x.workspace_id x.child_id
    check_content x (present x.content)
    let used = s.find_many (in_workspace x.workspace_id) db.documents
    assert_quota (length used) (total_bytes used) (decoded_length (present x.content))
    ok (document_row id x, record db { documents = s.create (document_row id x) db.documents })

  -- `listDocuments`, without the final sort.
  unfoldable pub list_documents : Db s → ℕ → ℕ → List Document
  list_documents db ws user_id =
      s.find_many
        (λ d.
          in_workspace ws d
          && (not (is_private d) || (is_private d && d.uploaded_by_id == user_id)))
        db.documents

  -- `getDocumentDownload` behind its search: the row with its content, where an inner `none` is a content
  -- that does not decrypt.
  unfoldable pub download_found : ℕ → Option Document → Option (Document × Option (Option String))
  download_found user_id none = none
  download_found user_id (some d) =
      if is_private d && not (d.uploaded_by_id == user_id)
      then none
      else some (d, elim d.content [ none ↦ none | some c ↦ some (decrypt_optional p.cipher c) ])

  unfoldable pub get_document_download :
      Db s → ℕ → ℕ → ℕ → Option (Document × Option (Option String))
  get_document_download db ws document_id user_id =
      download_found user_id
        (s.find_first (λ d. d.id == document_id && d.workspace_id == ws) db.documents)

  -- `deleteDocument` behind its search.
  unfoldable pub delete_found : Db s → ℕ → ℕ → Option Document → Result (Db s)
  delete_found db document_id requester_id none = err document_not_found
  delete_found db document_id requester_id (some d) = do
    throw_if (not (is_private d)) forbidden
    throw_if (not (d.uploaded_by_id == requester_id)) forbidden
    ok (record db { documents = s.delete_many (λ r. r.id == document_id) db.documents })

  unfoldable pub delete_document : Db s → ℕ → ℕ → ℕ → Result (Db s)
  delete_document db ws document_id requester_id =
      delete_found db document_id requester_id
        (s.find_first (λ d. d.id == document_id && d.workspace_id == ws) db.documents)
