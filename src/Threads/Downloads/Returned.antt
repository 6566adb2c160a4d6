-- ===== src/Threads/Downloads/Returned.antt =====
-- What was posted with a message can be downloaded.
use coparentes_backend.Common.{
  ℕ, suc, ◌≤◌, ◌≡◌, refl, sym, subst, ◌∙◌, inl, inr, true, false, ◌&&◌, Option, none, some, String,
  str_eq, List, [], ◌∷◌, All, count, ◌==◌, ==_iff, ok_injective, Bool-cases, Option-cases, ok,
  arith,
}
use coparentes_backend.Common.Store.{Store, Finds, find}
use coparentes_backend.Common.Rows.Unique.{
  Finds-find, find-append_one, count-append_one, count_of_find-none,
}
use coparentes_backend.Common.Rows.{All-Mem, mem-update_rows_hit}
use coparentes_backend.Crypto.{Cipher, key_messages, encrypt_optional, decrypt_optional_safe}
use coparentes_backend.Crypto.RoundTrip.{decrypt_optional_safe-encrypt}
use coparentes_backend.Custody.Pattern.{Role}
use coparentes_backend.Threads.{Thread, Message, ThreadDb, Member, is_child}
use coparentes_backend.Threads.Attachments.{
  AttachmentOps, ReadsBack, RawAttachment, Attachment, find_attachment, normalize_attachments,
  attachments_text, parse_stored_attachments, stored_each, raws_of,
}
use coparentes_backend.Threads.Attachments.Limits.{IsAccepted, normalize-IsAccepted}
use coparentes_backend.Threads.Rooms.{find_thread}
use coparentes_backend.Threads.Messages.{add_message_to_thread, user_message, touch}
use coparentes_backend.Threads.Posting.{Posts, add_message-Posts}
use coparentes_backend.Threads.Downloads.{
  is_message, attachment_answer, message_attachment, get_message_attachment_download,
}

module _ (c : Cipher) (o : AttachmentOps) where
  each_back :
      (index : ℕ) (xs : List Attachment) (id : String)
      → All IsAccepted xs
      → attachment_answer (find_attachment (stored_each o index (raws_of xs)) id)
        ≡ find (λ a. str_eq a.id id) xs
  unfolding find_attachment
  each_back index [] id h = refl
  each_back index (x ∷ xs) id h = elim (Bool-cases (str_eq x.id id)) [
    | inl hit ↦ let (_, filled, _) = h.0 in rw (hit, filled) refl
    | inr miss ↦ rw miss (each_back (suc index) xs id h.1)
  ]

  -- The text of a message's attachments, encrypted and read again.
  text_back :
      (xs : List Attachment) (id : String)
      → ReadsBack o xs
      → All IsAccepted xs
      → attachment_answer (
          find_attachment
            (parse_stored_attachments o (
              decrypt_optional_safe c
                (encrypt_optional c (attachments_text o xs) key_messages)
                (some "[]")))
            id)
        ≡ find (λ a. str_eq a.id id) xs
  unfolding parse_stored_attachments encrypt_optional decrypt_optional_safe find_attachment
  text_back [] id j h = rw j.parse_brackets refl
  text_back (x ∷ xs) id j h =
      rw
        (
          decrypt_optional_safe-encrypt c (o.to_json (x ∷ xs)) key_messages (some "[]") j.filled
              j.plain,
          j.filled,
          j.parse-to_json,
        )
        (each_back 0 (x ∷ xs) id h)

module _ (s : Store) (c : Cipher) (o : AttachmentOps) where
  thread_still_found :
      {db db' : ThreadDb s} {ws thread id now : ℕ} {sender : Member}
      {name content tone hash : String} {json : Option String}
      → Posts s c db db' ws thread sender name content tone json hash id now
      → (t : Thread) × (find_thread s db' ws thread ≡ some t)
  thread_still_found {db} {db'} {ws} {thread} {id} {now} p =
      let there =
        mem-update_rows_hit (λ (t : Thread). t.id == thread) (touch s now) (s.rows db.threads)
          ((==_iff _ _).1 p.place.0) p.listed in
      elim (Option-cases (find_thread s db' ws thread)) [
        | inr hit ↦ hit
        | inl gone ↦
            let none_fits =
              subst
                (Finds (λ (t : Thread). t.id == thread && t.workspace_id == ws)
                  (s.rows db'.threads))
                gone (s.find_first-Finds _ db'.threads) in
            let misses =
              All-Mem (λ (t : Thread). (t.id == thread && t.workspace_id == ws) ≡ false)
                (subst (All (λ (t : Thread). (t.id == thread && t.workspace_id == ws) ≡ false))
                  p.threads none_fits)
                there in
            absurd (ground (arith, misses, p.place.0, p.place.1))
      ]

  message_found :
      {db db' : ThreadDb s} {ws thread id now : ℕ} {sender : Member}
      {name content tone hash : String} {json : Option String}
      → Posts s c db db' ws thread sender name content tone json hash id now
      → find (is_message ws thread id) (s.rows db.messages) ≡ none
      → s.find_first (is_message ws thread id) db'.messages
        ≡ some (user_message s c id thread ws sender.id name content tone json hash now)
  message_found {db} {db'} {ws} {thread} {id} {now} {sender} {name} {content} {tone} {hash} {json} p
        fresh =
      let m = user_message s c id thread ws sender.id name content tone json hash now in
      let test = is_message ws thread id in
      let fits : test m ≡ true =
        rw ((==_iff id id).1 refl, (==_iff thread thread).1 refl, (==_iff ws ws).1 refl) refl in
      let only : find test (s.rows db'.messages) ≡ some m =
        rw (p.messages, find-append_one, fresh, fits) refl in
      let one : count test (s.rows db'.messages) ≤ 1 =
        rw (p.messages, count-append_one, fits, count_of_find-none test (s.rows db.messages) fresh)
          (omega arith) in
      Finds-find test (s.rows db'.messages) _ one (s.find_first-Finds test db'.messages) ∙ only

  -- After a call of `addMessageToThread` that answers with a thread, where the message's id was new in the thread and JSON gives back the
  -- attachments that were let through, a reader of the workspace who is not a child downloads each of them: for an id, the first attachment with
  -- this id, with its content, and nothing where none has it.
  pub download-posted :
      (db db' : ThreadDb s) (ws thread : ℕ) (sender : Member) (name content tone : String)
      (attachments : List RawAttachment) (xs : List Attachment) (hash : String) (id now : ℕ)
      (v : Thread × List Message) (role : Role)
      → normalize_attachments o attachments ≡ ok xs
      → ReadsBack o xs
      → find (is_message ws thread id) (s.rows db.messages) ≡ none
      → is_child role ≡ false
      → add_message_to_thread s c o db ws thread sender name content tone attachments hash id now
        ≡ ok (some v, db')
      → (wanted : String)
      → get_message_attachment_download s c o db' ws thread id wanted role
        ≡ find (λ a. str_eq a.id wanted) xs
  unfolding get_message_attachment_download message_attachment
  download-posted db db' ws thread sender name content tone attachments xs hash id now v role fine
        back fresh grown e wanted =
      let (ys, same, p) =
        add_message-Posts s c o db db' ws thread sender name content tone attachments hash id now v
          e in
      let eq : ys ≡ xs = ok_injective (sym same ∙ fine) in
      let (t, found) = thread_still_found p in
      let (_, _, accepted) = normalize-IsAccepted o attachments xs fine in
      rw (found, grown, message_found p fresh, eq) (text_back c o xs wanted back accepted)
