-- ===== src/Threads/Reactions.antt =====
-- One reaction of each user to a message (src/services/messageReactions.js). Ids were checked and the emoji is trimmed; the table
-- of reactions is there.
pub mod Toggle
use coparentes_backend.Common.{
  ℕ, Bool, true, false, not, ◌&&◌, Option, none, some, String, str_eq, List, [], ◌∷◌, any, mem_id,
  ◌==◌, if◌then◌else◌, Result, ok, throw_if, or_throw, ◌>>=◌, ◌>>◌, message_not_found,
  invalid_reaction,
}
use coparentes_backend.Common.Store.{Store}
use coparentes_backend.Threads.{Message}

pub record Reaction : Type 0 where
  pub workspace_id : ℕ
  pub thread_id : ℕ
  pub message_id : ℕ
  pub user_id : ℕ
  pub emoji : String

pub record ReactionDb (s : Store) : Type 0 where
  pub messages : s.Table Message
  pub reactions : s.Table Reaction

-- `ALLOWED_MESSAGE_REACTIONS`
abbrev pub allowed_message_reactions : List String
allowed_message_reactions = "👍" ∷ "❤\u{fe0f}" ∷ "😂" ∷ "😮" ∷ "😢" ∷ "🙏" ∷ []

-- `raw.length === 0 ? null : raw`
abbrev pub next_emoji : Option String → Option String
next_emoji none = none
next_emoji (some raw) = if str_eq raw "" then none else some raw

abbrev pub is_allowed : Option String → Bool
is_allowed none = true
is_allowed (some e) = any (str_eq e) allowed_message_reactions

-- `where: { userId_messageId: { userId, messageId } }`
abbrev pub is_of : ℕ → ℕ → Reaction → Bool
is_of user message r = r.user_id == user && r.message_id == message

-- `nextEmoji == null || (existing && existing.emoji === nextEmoji)`
abbrev pub clears : Option Reaction → Option String → Bool
clears _ none = true
clears none (some e) = false
clears (some r) (some e) = str_eq r.emoji e

abbrev pub set_emoji : String → Reaction → Reaction
set_emoji e r = record r { emoji = e }

module _ (s : Store) where
  -- `listMessageReactionsForThreads`, for one list of threads, in the order of the table.
  unfoldable pub list_message_reactions : s.Table Reaction → ℕ → List ℕ → List Reaction
  list_message_reactions t ws [] = []
  list_message_reactions t ws (id ∷ ids) =
      s.find_many (λ r. r.workspace_id == ws && mem_id r.thread_id (id ∷ ids)) t

  -- The write of `setMessageReactionForUser`.
  unfoldable pub write_reaction :
      s.Table Reaction → ℕ → ℕ → Message → Option String → s.Table Reaction
  write_reaction t ws user m none = s.delete_many (is_of user m.id) t
  write_reaction t ws user m (some e) =
      if clears (s.find_first (is_of user m.id) t) (some e)
      then s.delete_many (is_of user m.id) t
      else s.upsert (is_of user m.id) (set_emoji e)
          (record {
            workspace_id = ws;
            thread_id = m.thread_id;
            message_id = m.id;
            user_id = user;
            emoji = e;
          })
          t

  -- `setMessageReactionForUser`
  unfoldable pub set_message_reaction :
      ReactionDb s → ℕ → ℕ → ℕ → Option String → Result (List Reaction × ReactionDb s)
  unfolding write_reaction list_message_reactions
  set_message_reaction db ws user message emoji = do
    m ←
        or_throw (s.find_first (λ m. m.id == message && m.workspace_id == ws) db.messages)
          message_not_found
    throw_if (not (is_allowed (next_emoji emoji))) invalid_reaction
    let after = write_reaction db.reactions ws user m (next_emoji emoji)
    ok (list_message_reactions after ws (m.thread_id ∷ []), record db { reactions = after })
