-- ===== src/Threads/Tests.antt =====
-- Threads over a small database kept as lists.
use coparentes_backend.Common.{
  ℕ, ◌≡◌, ◌≢◌, ◌↔◌, refl, true, false, none, some, List, [], ◌∷◌, arith, ok, All, count, mem_id,
  message_empty, err,
}
use coparentes_backend.Common.Store.{list_store}
use coparentes_backend.Crypto.Sample.{toy_cipher}
use coparentes_backend.Custody.Pattern.{child}
use coparentes_backend.Threads.{
  Thread, ThreadDb, parents, all_different, check_thread_keys, Message,
}
use coparentes_backend.Threads.Rooms.{
  new_thread, is_channel, list_threads, get_thread_by_id, get_or_create_category_thread,
}
use coparentes_backend.Threads.Messages.{add_message_to_thread, user_message, post}
use coparentes_backend.Threads.Attachments.{Attachment, normalize_attachments, attachments_text}
use coparentes_backend.Threads.Sample.{toy_ops, room, db, mother}
use coparentes_backend.Threads.KeySet.{check_keys_iff}
use coparentes_backend.Threads.Posting.{Posts, add_message-Posts}
use coparentes_backend.Threads.Channels.{IsForChild, category_thread_once, child_sees_family}

abbrev given : List ℕ
given = 3 ∷ 2 ∷ []

check_keys_iff_example : (check_thread_keys (2 ∷ 3 ∷ []) given ≡ ok tt) ↔ (
    (given ≢ [])
    × (all_different given ≡ true)
    × ((u : ℕ) → (mem_id u given ≡ true) ↔ (mem_id u (2 ∷ 3 ∷ []) ≡ true)))
check_keys_iff_example = check_keys_iff (2 ∷ 3 ∷ []) given refl

empty_post :
    add_message_to_thread list_store toy_cipher toy_ops db 1 5 mother "Anna" "" "neutral" [] "h" 7
      20
    ≡ err message_empty
unfolding add_message_to_thread normalize_attachments
empty_post = refl

abbrev note : Message
note = user_message list_store toy_cipher 7 5 1 2 "Anna" "Hi" "neutral" none "h" 20

abbrev posted : ThreadDb list_store
posted = post list_store db note

add_message-Posts_example :
    (xs : List Attachment) × (normalize_attachments toy_ops [] ≡ ok xs)
    × Posts list_store toy_cipher db posted 1 5 mother "Anna" "Hi" "neutral"
        (attachments_text toy_ops xs)
        "h"
        7
        20
unfolding add_message_to_thread normalize_attachments
add_message-Posts_example =
    add_message-Posts list_store toy_cipher toy_ops db posted 1 5 mother "Anna" "Hi" "neutral" []
      "h" 7 20 (record room { last_activity = 20 }, note ∷ []) refl

abbrev health : Thread
health = new_thread list_store 9 1 "Zdrowie" "Zdrowie" none 2 parents false 30

abbrev with_health : ThreadDb list_store
with_health = record db { threads = room ∷ health ∷ [] }

category_thread_once_example :
    count (is_channel list_store 1 "Zdrowie" parents) (room ∷ health ∷ []) ≡ 1
unfolding get_or_create_category_thread
category_thread_once_example =
    category_thread_once list_store db with_health 1 mother "Zdrowie" [] 9 30 (some (health, []))
      (omega arith) refl

child_sees_family_example :
    All (IsForChild list_store 1) (list_threads list_store with_health 1 child)
    × ((id : ℕ) (v : Thread × List Message)
        → get_thread_by_id list_store with_health 1 id child ≡ some v
        → IsForChild list_store 1 v)
child_sees_family_example = child_sees_family list_store with_health 1
