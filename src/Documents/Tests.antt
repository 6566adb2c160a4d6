-- ===== src/Documents/Tests.antt =====
-- The vault over a small database kept as lists.
use coparentes_backend.Common.{
  ◌≡◌, refl, true, false, none, some, [], ◌∷◌, arith, ◌++◌, err, forbidden, unsupported_file_type,
}
use coparentes_backend.Common.Store.{list_store}
use coparentes_backend.Crypto.Sample.{toy_cipher}
use coparentes_backend.Documents.FileType.{detect_file_type, assert_allowed_document_content}
use coparentes_backend.Documents.Vault.{
  Document, NewDocument, Platform, Db, create_document, document_row, check_child, check_content,
  delete_document, delete_found, assert_quota,
}
use coparentes_backend.Documents.Quota.{content_bytes, Fits, create_document-Fits}
use coparentes_backend.Documents.Access.{Deletes, delete_document-Deletes}

abbrev platform : Platform
platform = record {
  cipher = toy_cipher;
  decode = λ t. b'%' ∷ b'P' ∷ b'D' ∷ b'F' ∷ [];
  peek = λ t n. b'%' ∷ b'P' ∷ b'D' ∷ b'F' ∷ [];
  claims_text = λ name mime. false;
  lower_case = λ t. t;
}

abbrev diary : Document
diary = record {
  id = 1;
  workspace_id = 1;
  title = "Diary";
  category = "Private";
  child_id = none;
  file_name = none;
  mime_type = none;
  file_url = none;
  content = none;
  size_bytes = 0;
  uploaded_by_id = 2;
}

abbrev contract : NewDocument
contract = record {
  workspace_id = 1;
  uploaded_by_id = 3;
  title = "Contract";
  category = "Agreements";
  child_id = none;
  file_name = none;
  mime_type = none;
  content = some "JVBERg==";
}

abbrev db : Db list_store
db = record { documents = diary ∷ []; children = [] }

abbrev with_contract : Db list_store
with_contract = record {
  documents = diary ∷ document_row list_store platform 5 contract ∷ [];
  children = [];
}

program_refused :
    assert_allowed_document_content (b'M' ∷ b'Z' ∷ 0x90 ∷ 0 ∷ []) (b'M' ∷ b'Z' ∷ 0x90 ∷ 0 ∷ []) true
    ≡ err unsupported_file_type
unfolding assert_allowed_document_content
program_refused = refl

others_diary : delete_document list_store platform db 1 1 3 ≡ err forbidden
unfolding delete_document delete_found
others_diary = refl

create_document-Fits_example :
    (with_contract.documents ≡ db.documents ++ document_row list_store platform 5 contract ∷ [])
    × (1 ≡ contract.workspace_id)
    × ((document_row list_store platform 5 contract).size_bytes
        ≡ content_bytes platform contract.content)
    × Fits 1 (list_store.rows with_contract.documents)
unfolding create_document check_child check_content assert_quota assert_allowed_document_content
    detect_file_type document_row
create_document-Fits_example =
    create_document-Fits list_store platform db with_contract 5 1 contract
      (document_row list_store platform 5 contract) refl (omega arith, omega arith)

delete_document-Deletes_example :
    Deletes list_store platform db 1 1 2 (delete_document list_store platform db 1 1 2)
delete_document-Deletes_example = delete_document-Deletes list_store platform db 1 1 2
