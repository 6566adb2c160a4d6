-- ===== src/Threads/Posting.antt =====
-- Who posts a message, and what a post writes.
use mathlib.Core.List.{Memᴰ}
use coparentes_backend.Common.{
  ℕ, ◌≡◌, refl, sym, ap, subst, inl, inr, true, false, not, ◌&&◌, Option, some, String, str_eq,
  List, [], ◌∷◌, ◌++◌, ◌==◌, ==_iff, is_some, Bool-cases, Option-cases, Result-cases, ok,
  ok_injective, arith,
}
use coparentes_backend.Common.Store.{Store, Finds, update_rows}
use coparentes_backend.Crypto.{Cipher, key_messages, encrypt_optional}
use coparentes_backend.Threads.{Thread, Message, ThreadDb, Member, can_user_send_message}
use coparentes_backend.Threads.Attachments.{
  AttachmentOps, RawAttachment, Attachment, normalize_attachments, attachments_text,
}
use coparentes_backend.Threads.Rooms.{find_thread}
use coparentes_backend.Threads.Messages.{add_message_to_thread, add_message_found, add_accepted}

module _ (s : Store) (c : Cipher) where
  -- The row of a message: of the thread, workspace and sender, not read, not of the system, with its content and its attachments as `encryptOptional`
  -- gives them under the key of messages.
  abbrev pub stored_message :
      ℕ → ℕ → ℕ → ℕ → String → String → String → Option String → String → ℕ → Message
  stored_message id thread ws sender name content tone attachments hash now = record {
    id = id;
    thread_id = thread;
    workspace_id = ws;
    sender_id = sender;
    sender_name = name;
    content = encrypt_optional c (some content) key_messages;
    is_system = false;
    tone = tone;
    sent_at = now;
    is_read = false;
    hash = hash;
    attachments_json = encrypt_optional c attachments key_messages;
  }

  -- What a call that posts has found and written.
  pub record Posts (db db' : ThreadDb s) (ws thread : ℕ) (sender : Member)
      (name content tone : String) (attachments : Option String) (hash : String) (id now : ℕ)
      : Type 0 where
    pub room : Thread
    pub listed : Memᴰ room (s.rows db.threads)
    pub place : (room.id ≡ thread) × (room.workspace_id ≡ ws)
    pub allowed : can_user_send_message sender.role room ≡ true
    pub messages :
        s.rows db'.messages
        ≡ s.rows db.messages
          ++ stored_message id thread ws sender.id name content tone attachments hash now ∷ []
    pub threads :
        s.rows db'.threads
        ≡ update_rows
            (λ t. t.id == thread)
            (λ t. record t { last_activity = now })
            (s.rows db.threads)
    pub users : db'.users ≡ db.users
    pub children : db'.children ≡ db.children
    pub keys : db'.keys ≡ db.keys

  accepted-Posts :
      (db db' : ThreadDb s) (ws thread : ℕ) (sender : Member) (name content tone : String)
      (attachments : Option String) (hash : String) (id now : ℕ) (v : Thread × List Message)
      (t : Thread)
      → find_thread s db ws thread ≡ some t
      → can_user_send_message sender.role t ≡ true
      → add_accepted s c db ws sender name content tone attachments hash id now t ≡ ok (some v, db')
      → Posts db db' ws thread sender name content tone attachments hash id now
  accepted-Posts db db' ws thread sender name content tone attachments hash id now v t found allowed
        e =
      elim (Bool-cases (str_eq content "" && not (is_some attachments))) [
        | inl empty ↦ absurd (cc (rw empty at e))
        | inr given ↦
            let (fits, m) =
              subst (Finds (λ t. t.id == thread && t.workspace_id == ws) (s.rows db.threads)) found
                (s.find_first-Finds _ db.threads) in
            let own : t.id ≡ thread = (==_iff _ _).0 (ground (arith, fits)) in
            let r =
              ap (λ (x : Option (Thread × List Message) × ThreadDb s). x.1)
                (ok_injective (rw given at e)) in
            record {
              room = t;
              listed = m;
              place = (own, (==_iff _ _).0 (ground (arith, fits)));
              allowed = allowed;
              messages = rw (sym (ap (λ (d : ThreadDb s). d.messages) r), s.rows-create, own) refl;
              threads =
                  rw (sym (ap (λ (d : ThreadDb s). d.threads) r), s.rows-update_many, own) refl;
              users = sym (ap (λ (d : ThreadDb s). d.users) r);
              children = sym (ap (λ (d : ThreadDb s). d.children) r);
              keys = sym (ap (λ (d : ThreadDb s). d.keys) r);
            }
      ]

  -- A call of `addMessageToThread` that answers with a thread found it in the caller's workspace, with a caller who may write
  -- to it. It wrote one message at the end of the table, with the caller as its sender, its content and the attachments that the checks let
  -- through as `encryptOptional` gives them under the key of messages, and the time of the thread's last activity; the users, children, keys, other
  -- messages and all else of the threads stay.
  pub add_message-Posts :
      (o : AttachmentOps) (db db' : ThreadDb s) (ws thread : ℕ) (sender : Member)
      (name content tone : String) (attachments : List RawAttachment) (hash : String) (id now : ℕ)
      (v : Thread × List Message)
      → add_message_to_thread s c o db ws thread sender name content tone attachments hash id now
        ≡ ok (some v, db')
      → (xs : List Attachment) × (normalize_attachments o attachments ≡ ok xs)
        × Posts db db' ws thread sender name content tone (attachments_text o xs) hash id now
  unfolding add_message_to_thread add_message_found
  add_message-Posts o db db' ws thread sender name content tone attachments hash id now v e =
      elim (Option-cases (find_thread s db ws thread)) [
        | inl gone ↦ absurd (cc (rw gone at e))
        | inr (t, found) ↦ elim (Bool-cases (can_user_send_message sender.role t)) [
          | inr refused ↦ absurd (cc (rw (found, refused) at e))
          | inl allowed ↦ elim (Result-cases (normalize_attachments o attachments)) [
            | inl (code, bad) ↦ absurd (cc (rw (found, allowed, bad) at e))
            | inr (xs, fine) ↦ (
              xs,
              fine,
              accepted-Posts db db' ws thread sender name content tone (attachments_text o xs) hash
                  id now v t found allowed (rw (found, allowed, fine) at e),
            )
          ]
        ]
      ]
