-- ===== src/Threads/Messages.antt =====
-- Keys, reading marks and messages of a thread (src/services/threads.js).
use coparentes_backend.Common.{
  ℕ, Bool, true, false, not, ◌&&◌, Option, none, some, String, str_eq, List, same_id, ◌==◌, is_some,
  if◌then◌else◌, Result, ok, err, throw_if, or_throw, ◌>>=◌, ◌>>◌, invalid_thread_keys,
  thread_not_found, thread_key_not_found, invalid_thread_audience, already_exists, message_empty,
  not_system_channel,
}
use coparentes_backend.Common.Store.{Store}
use coparentes_backend.Crypto.{Cipher, key_messages, encrypt_optional}
use coparentes_backend.Custody.Pattern.{Role}
use coparentes_backend.Threads.{
  Member, Message, Thread, ThreadDb, can_user_access_thread, can_user_send_message, is_child,
  is_family,
}
use coparentes_backend.Threads.Attachments.{
  AttachmentOps, RawAttachment, normalize_attachments, attachments_text,
}
use coparentes_backend.Threads.Rooms.{Answer, answer, find_thread, get_thread_by_id}

module _ (s : Store) where
  -- The thread that a call may read.
  abbrev pub reached : Role → Option Thread → Result Thread
  reached role none = err thread_not_found
  reached role (some t) = if can_user_access_thread role t then ok t else err thread_not_found

  -- `getMyThreadKey`
  unfoldable pub get_my_thread_key : ThreadDb s → ℕ → ℕ → Member → Result String
  get_my_thread_key db ws id user = do
    t ← reached user.role (find_thread s db ws id)
    row ←
        or_throw (s.find_first (λ k. k.thread_id == id && k.user_id == user.id) db.keys)
          thread_key_not_found
    ok row.encrypted_key

  -- `syncFamilyThreadKey`
  unfoldable pub sync_family_thread_key : ThreadDb s → ℕ → ℕ → ℕ → String → Result (ThreadDb s)
  sync_family_thread_key db ws id user key = do
    t ← or_throw (find_thread s db ws id) thread_not_found
    throw_if (not (is_family t.audience)) invalid_thread_audience
    u ←
        or_throw
          (s.find_first (λ u. u.id == user && (same_id u.workspace_id ws && is_child u.role))
            db.users)
          invalid_thread_keys
    throw_if (is_some (s.find_first (λ k. k.thread_id == id && k.user_id == user) db.keys))
        already_exists
    ok (record db {
      keys = s.create (record { thread_id = id; user_id = user; encrypted_key = key }) db.keys;
    })

  -- `where: { threadId, workspaceId, senderId: { not: userId }, isRead: false }`
  abbrev pub is_unread_for : ℕ → ℕ → ℕ → Message → Bool
  is_unread_for ws id user m =
      m.thread_id == id && (m.workspace_id == ws && (not (m.sender_id == user) && not m.is_read))

  abbrev pub read_message : Message → Message
  read_message m = record m { is_read = true }

  abbrev pub read_found :
      ThreadDb s
      → ℕ
      → ℕ
      → Member
      → Option Thread
      → Option (Option (Thread × List Message) × ThreadDb s)
  read_found db ws id user none = none
  read_found db ws id user (some t) =
      if can_user_access_thread user.role t
      then (let after = record db {
        messages = s.update_many (is_unread_for ws id user.id) read_message db.messages;
      } in
          some (get_thread_by_id s after ws id user.role, after))
      else none

  -- `markThreadAsRead`
  unfoldable pub mark_thread_as_read :
      ThreadDb s → ℕ → ℕ → Member → Option (Option (Thread × List Message) × ThreadDb s)
  unfolding get_thread_by_id
  mark_thread_as_read db ws id user = read_found db ws id user (find_thread s db ws id)

  abbrev pub touch : ℕ → Thread → Thread
  touch now t = record t { last_activity = now }

  -- The transaction that writes a message and the thread's last activity.
  abbrev pub post : ThreadDb s → Message → ThreadDb s
  post db m = record db {
    messages = s.create m db.messages;
    threads = s.update_many (λ t. t.id == m.thread_id) (touch m.sent_at) db.threads;
  }

  module _ (c : Cipher) where
    abbrev pub user_message :
        ℕ → ℕ → ℕ → ℕ → String → String → String → Option String → String → ℕ → Message
    user_message id thread ws sender name content tone attachments hash now = record {
      id = id;
      thread_id = thread;
      workspace_id = ws;
      sender_id = sender;
      sender_name = name;
      content = encrypt_optional c (some content) key_messages;
      is_system = false;
      tone = tone;
      sent_at = now;
      is_read = false;
      hash = hash;
      attachments_json = encrypt_optional c attachments key_messages;
    }

    abbrev pub system_message : ℕ → ℕ → ℕ → ℕ → String → String → String → String → ℕ → Message
    system_message id thread ws sender name content tone hash now = record {
      id = id;
      thread_id = thread;
      workspace_id = ws;
      sender_id = sender;
      sender_name = name;
      content = encrypt_optional c (some content) key_messages;
      is_system = true;
      tone = tone;
      sent_at = now;
      is_read = false;
      hash = hash;
      attachments_json = none;
    }

    -- `addMessageToThread` behind its checks.
    abbrev pub add_accepted :
        ThreadDb s
        → ℕ
        → Member
        → String
        → String
        → String
        → Option String
        → String
        → ℕ
        → ℕ
        → Thread
        → Answer s
    add_accepted db ws sender name content tone attachments hash id now t =
        throw_if (str_eq content "" && not (is_some attachments)) message_empty
        >> (let after =
              post db (user_message id t.id ws sender.id name content tone attachments hash now) in
            answer s after ws t.id sender.role)

    -- `addMessageToThread` behind its search; the content is trimmed.
    unfoldable pub add_message_found :
        AttachmentOps
        → ThreadDb s
        → ℕ
        → Member
        → String
        → String
        → String
        → List RawAttachment
        → String
        → ℕ
        → ℕ
        → Option Thread
        → Answer s
    unfolding get_thread_by_id
    add_message_found o db ws sender name content tone attachments hash id now none = ok (none, db)
    add_message_found o db ws sender name content tone attachments hash id now (some t) =
        if not (can_user_send_message sender.role t) then ok (none, db) else do
          normalized ← normalize_attachments o attachments
          add_accepted db ws sender name content tone (attachments_text o normalized) hash id now t

    -- `addMessageToThread`
    unfoldable pub add_message_to_thread :
        AttachmentOps
        → ThreadDb s
        → ℕ
        → ℕ
        → Member
        → String
        → String
        → String
        → List RawAttachment
        → String
        → ℕ
        → ℕ
        → Answer s
    unfolding add_message_found
    add_message_to_thread o db ws thread sender name content tone attachments hash id now =
        add_message_found o db ws sender name content tone attachments hash id now
          (find_thread s db ws thread)

    -- `addSystemMessageToThread`, for a thread of notices.
    unfoldable pub add_system_message_to_thread :
        ThreadDb s → ℕ → ℕ → Member → String → String → String → String → ℕ → ℕ → Answer s
    unfolding get_thread_by_id
    add_system_message_to_thread db ws thread sender name content tone hash id now = do
      t ← or_throw (find_thread s db ws thread) not_system_channel
      throw_if (not t.is_system_channel) not_system_channel
      throw_if (str_eq content "") message_empty
      let after = post db (system_message id t.id ws sender.id name content tone hash now)
      answer s after ws t.id sender.role
