-- ===== src/Threads/ReplyTests.antt =====
-- Attachments, tags and reactions of messages over a small database kept as lists.
use coparentes_backend.Common.{
  ℕ, ◌≡◌, ◌≤◌, refl, false, ◌&&◌, some, String, List, [], ◌∷◌, arith, All, length, ◌==◌,
}
use coparentes_backend.Common.Store.{list_store}
use coparentes_backend.Crypto.{is_encrypted}
use coparentes_backend.Crypto.Sample.{toy_cipher}
use coparentes_backend.Custody.Pattern.{parent_b}
use coparentes_backend.Threads.{ThreadDb, Message}
use coparentes_backend.Threads.Sample.{room, db, mother, photo, toy_ops}
use coparentes_backend.Threads.Messages.{add_message_to_thread, user_message, post}
use coparentes_backend.Threads.Attachments.{
  RawAttachment, raws_of, ReadsBack, normalize_attachments,
}
use coparentes_backend.Threads.Attachments.Limits.{IsAccepted, normalize-IsAccepted}
use coparentes_backend.Threads.Downloads.{get_message_attachment_download}
use coparentes_backend.Threads.Downloads.Returned.{download-posted}
use coparentes_backend.Threads.Reactions.{Reaction, ReactionDb, set_message_reaction}
use coparentes_backend.Threads.Reactions.Toggle.{Taps, set_reaction-Taps}
use coparentes_backend.Threads.Tags.{UserTag, TagDb, TextOps, normalize_tags, set_message_tags}
use coparentes_backend.Threads.Tags.Setting.{IsDistinct, IsFilled, tags_on, set_tags_replace}

abbrev sent : List RawAttachment
sent = raws_of (photo ∷ [])

photo-ReadsBack : ReadsBack toy_ops (photo ∷ [])
unfolding is_encrypted
photo-ReadsBack = record {
  parse-to_json = refl;
  parse_brackets = refl;
  filled = refl;
  plain = refl;
}

normalize-IsAccepted_example :
    (length (photo ∷ []) ≡ length sent) × (length sent ≤ 3) × All IsAccepted (photo ∷ [])
unfolding normalize_attachments
normalize-IsAccepted_example = normalize-IsAccepted toy_ops sent (photo ∷ []) refl

abbrev note : Message
note = user_message list_store toy_cipher 7 5 1 2 "Anna" "Hi" "neutral" (some "[photo]") "h" 20

abbrev posted : ThreadDb list_store
posted = post list_store db note

download-posted_example :
    get_message_attachment_download list_store toy_cipher toy_ops posted 1 5 7 "a" parent_b
    ≡ some photo
unfolding add_message_to_thread normalize_attachments
download-posted_example =
    download-posted list_store toy_cipher toy_ops db posted 1 5 mother "Anna" "Hi" "neutral" sent
      (photo ∷ []) "h" 7 20 (record room { last_activity = 20 }, note ∷ []) parent_b refl
      photo-ReadsBack refl refl refl "a"

abbrev reaction : ℕ → Reaction
reaction user = record {
  workspace_id = 1;
  thread_id = 5;
  message_id = 7;
  user_id = user;
  emoji = "👍";
}

abbrev reactions : ReactionDb list_store
reactions = record { messages = note ∷ []; reactions = reaction 2 ∷ [] }

set_reaction-Taps_example : Taps list_store (reaction 2 ∷ []) [] 2 7 (some "👍")
unfolding set_message_reaction
set_reaction-Taps_example =
    set_reaction-Taps list_store reactions (record reactions { reactions = [] }) 1 2 7 (some "👍") []
      (λ user message. ground arith) refl

abbrev texts : TextOps
texts = record { trim = λ x. x; lower = λ x. x; slice = λ n x. x }

abbrev tag : ℕ → String → UserTag
tag user text = record {
  workspace_id = 1;
  user_id = user;
  message_id = 7;
  thread_id = 5;
  tag = text;
}

abbrev tagged : TagDb list_store
tagged = record { messages = note ∷ []; tags = tag 2 "old" ∷ tag 3 "theirs" ∷ [] }

abbrev retagged : TagDb list_store
retagged = record tagged { tags = tag 3 "theirs" ∷ tag 2 "new" ∷ [] }

set_tags_replace_example :
    (tags_on 2 7 retagged.tags ≡ normalize_tags texts ("new" ∷ "new" ∷ []))
    × (length (normalize_tags texts ("new" ∷ "new" ∷ [])) ≤ 10)
    × IsFilled (normalize_tags texts ("new" ∷ "new" ∷ []))
    × IsDistinct [] (normalize_tags texts ("new" ∷ "new" ∷ []))
    × ((u k : ℕ) → (2 == u && 7 == k) ≡ false → tags_on u k retagged.tags ≡ tags_on u k tagged.tags)
unfolding set_message_tags
set_tags_replace_example =
    set_tags_replace list_store texts tagged retagged 1 2 7 ("new" ∷ "new" ∷ []) (tag 2 "new" ∷ [])
      refl
