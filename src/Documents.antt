-- ===== src/Documents.antt =====
-- The document vault (src/services/documents.js) and the check of uploaded files
-- (src/utils/fileSignature.js).
pub mod FileType
pub mod Vault
pub mod Quota
pub mod Access
mod Tests
