-- ===== src/Threads/Tags.antt =====
-- A user's own tags on messages (src/services/messageTags.js). `normalizeTag` is made of text operations of the platform.
pub mod Setting
use coparentes_backend.Common.{
  ℕ, Bool, true, false, not, ◌&&◌, ◌||◌, Option, none, some, String, str_eq, List, [], ◌∷◌, any,
  map, filter, take, ◌==◌, if◌then◌else◌, Result, ok, or_throw, ◌>>=◌, message_not_found,
}
use coparentes_backend.Common.Store.{Store}
use coparentes_backend.Threads.{Message}

pub record UserTag : Type 0 where
  pub workspace_id : ℕ
  pub user_id : ℕ
  pub message_id : ℕ
  pub thread_id : ℕ
  pub tag : String

pub record TagDb (s : Store) : Type 0 where
  pub messages : s.Table Message
  pub tags : s.Table UserTag

-- `String.prototype.trim`, `toLowerCase` and `slice(0, n)`.
pub record TextOps : Type 0 where
  pub trim : String → String
  pub lower : String → String
  pub slice : ℕ → String → String

abbrev pub max_tags_per_message : ℕ
max_tags_per_message = 10

abbrev pub max_tag_length : ℕ
max_tag_length = 40

abbrev pub normalize_tag : TextOps → String → String
normalize_tag o tag = o.slice max_tag_length (o.lower (o.trim tag))

abbrev pub has_tag : String → List String → Bool
has_tag tag = any (str_eq tag)

-- `[...new Set(tags)]`: the first of each.
unfoldable pub distinct_from : List String → List String → List String
distinct_from seen [] = []
distinct_from seen (t ∷ ts) =
    let fresh = t ∷ distinct_from (t ∷ seen) ts in
    let again = distinct_from seen ts in if has_tag t seen then again else fresh

unfoldable pub normalize_tags : TextOps → List String → List String
unfolding distinct_from
normalize_tags o tags =
    take max_tags_per_message
      (distinct_from [] (filter (λ t. not (str_eq t "")) (map (normalize_tag o) tags)))

-- `where: { userId, messageId }`
abbrev pub is_on : ℕ → ℕ → UserTag → Bool
is_on user message t = t.user_id == user && t.message_id == message

abbrev pub tag_row : ℕ → ℕ → Message → String → UserTag
tag_row ws user m tag = record {
  workspace_id = ws;
  user_id = user;
  message_id = m.id;
  thread_id = m.thread_id;
  tag = tag;
}

module _ (s : Store) where
  -- `listMessageTagsForUser`, in the order of the table.
  unfoldable pub list_message_tags : s.Table UserTag → ℕ → ℕ → List UserTag
  list_message_tags t ws user = s.find_many (λ r. r.workspace_id == ws && r.user_id == user) t

  -- `createMany`
  unfoldable pub create_tags : ℕ → ℕ → Message → List String → s.Table UserTag → s.Table UserTag
  create_tags ws user m [] t = t
  create_tags ws user m (tag ∷ tags) t =
      create_tags ws user m tags (s.create (tag_row ws user m tag) t)

  -- `setMessageTagsForUser`
  unfoldable pub set_message_tags :
      TextOps → TagDb s → ℕ → ℕ → ℕ → List String → Result (List UserTag × TagDb s)
  unfolding normalize_tags create_tags list_message_tags
  set_message_tags o db ws user message tags = do
    m ←
        or_throw (s.find_first (λ m. m.id == message && m.workspace_id == ws) db.messages)
          message_not_found
    let after =
        create_tags ws user m (normalize_tags o tags) (s.delete_many (is_on user message) db.tags)
    ok (list_message_tags after ws user, record db { tags = after })
