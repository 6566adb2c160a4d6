-- ===== src/Threads/Downloads.antt =====
-- The download of one attachment (src/services/threads.js).
pub mod Returned
use coparentes_backend.Common.{
  ℕ, Bool, ◌&&◌, Option, none, some, String, str_eq, ◌==◌, if◌then◌else◌,
}
use coparentes_backend.Common.Store.{Store}
use coparentes_backend.Crypto.{Cipher, decrypt_optional_safe}
use coparentes_backend.Custody.Pattern.{Role}
use coparentes_backend.Threads.{Message, Thread, ThreadDb, can_user_access_thread}
use coparentes_backend.Threads.Attachments.{
  AttachmentOps, Attachment, StoredAttachment, find_attachment, parse_stored_attachments,
}
use coparentes_backend.Threads.Rooms.{find_thread}

-- `serializeAttachmentsForClient` with the content.
abbrev pub with_content : StoredAttachment → String → Attachment
with_content a content = record {
  id = a.id;
  name = a.name;
  media_type = a.media_type;
  size_bytes = a.size_bytes;
  content_base64 = content;
}

abbrev pub filled_content : StoredAttachment → Option String → Option Attachment
filled_content a none = none
filled_content a (some content) = if str_eq content "" then none else some (with_content a content)

abbrev pub attachment_answer : Option StoredAttachment → Option Attachment
attachment_answer none = none
attachment_answer (some a) = filled_content a a.content_base64

-- `where: { id, threadId, workspaceId }`
abbrev pub is_message : ℕ → ℕ → ℕ → Message → Bool
is_message ws thread id m = m.id == id && (m.thread_id == thread && m.workspace_id == ws)

module _ (s : Store) (c : Cipher) (o : AttachmentOps) where
  unfoldable pub message_attachment : String → Option Message → Option Attachment
  message_attachment id none = none
  message_attachment id (some m) = attachment_answer (
      find_attachment
        (parse_stored_attachments o (decrypt_optional_safe c m.attachments_json (some "[]"))) id)

  abbrev pub thread_attachment :
      ThreadDb s → ℕ → ℕ → ℕ → String → Role → Option Thread → Option Attachment
  thread_attachment db ws thread message id role none = none
  thread_attachment db ws thread message id role (some t) =
      if can_user_access_thread role t
      then message_attachment id (s.find_first (is_message ws thread message) db.messages)
      else none

  -- `getMessageAttachmentDownload`
  unfoldable pub get_message_attachment_download :
      ThreadDb s → ℕ → ℕ → ℕ → String → Role → Option Attachment
  unfolding message_attachment
  get_message_attachment_download db ws thread message id role =
      thread_attachment db ws thread message id role (find_thread s db ws thread)
