-- ===== src/Threads.antt =====
-- Message threads (src/services/threads.js). Ids were checked before; the sender's display name and the integrity hash
-- are arguments. A `null` answer is `none`.
pub mod Rooms
pub mod Messages
pub mod KeySet
pub mod Reactions
pub mod Tags
pub mod Attachments
pub mod Posting
pub mod Downloads
pub mod Channels
pub mod Sample
mod Tests
mod ReplyTests
use coparentes_backend.Common.{
  ℕ, Bool, true, false, not, ◌&&◌, ◌||◌, Option, none, some, String, str_eq, List, [], ◌∷◌, ◌++◌,
  map, filter, any, length, mem_id, same_id, ◌==◌, is_some, if◌then◌else◌, Result, ok, err,
  throw_if, or_throw, ◌>>=◌, ◌>>◌, invalid_thread_keys, invalid_category, thread_not_found,
  thread_key_not_found, invalid_thread_audience, already_exists, child_not_found, message_empty,
  not_system_channel,
}
use coparentes_backend.Common.Store.{Store}
use coparentes_backend.Crypto.{Cipher, key_messages, encrypt_optional}
use coparentes_backend.Custody.Pattern.{Role, parent_a, child, is_parent, same_role}
use coparentes_backend.Accounts.{Account}
use coparentes_backend.Accounts.Joining.{list_parent_user_ids, ChildProfile}

-- `ThreadAudience`
pub data Audience : Type 0 where
  parents family : Audience

abbrev pub is_family : Audience → Bool
is_family family = true
is_family parents = false

abbrev pub same_audience : Audience → Audience → Bool
same_audience parents parents = true
same_audience family family = true
same_audience _ _ = false

pub record Thread : Type 0 where
  pub id : ℕ
  pub workspace_id : ℕ
  pub subject : String
  pub category : String
  pub child_id : Option ℕ
  pub created_by_id : ℕ
  pub audience : Audience
  pub is_system_channel : Bool
  pub last_activity : ℕ

pub record Message : Type 0 where
  pub id : ℕ
  pub thread_id : ℕ
  pub workspace_id : ℕ
  pub sender_id : ℕ
  pub sender_name : String
  pub content : Option String
  pub is_system : Bool
  pub tone : String
  pub sent_at : ℕ
  pub is_read : Bool
  pub hash : String
  pub attachments_json : Option String

pub record ThreadKey : Type 0 where
  pub thread_id : ℕ
  pub user_id : ℕ
  pub encrypted_key : String

pub record ThreadDb (s : Store) : Type 0 where
  pub users : s.Table Account
  pub children : s.Table ChildProfile
  pub threads : s.Table Thread
  pub messages : s.Table Message
  pub keys : s.Table ThreadKey

-- Who asks.
pub record Member : Type 0 where
  pub id : ℕ
  pub role : Role

-- A given key: the user and the thread's key encrypted for that user.
abbrev pub GivenKey : Type 0
GivenKey = ℕ × String

-- `CATEGORY_CHANNELS`
abbrev pub category_channels : List String
category_channels = "Wszystkie" ∷ "Szkoła" ∷ "Zdrowie" ∷ "Finanse" ∷ "Zmiana grafiku" ∷ []

-- `FAMILY_CATEGORY`
abbrev pub family_category : String
family_category = "Rodzina"

-- `isSystemCategory`
abbrev pub is_system_category : String → Bool
is_system_category category = str_eq category "Zmiana grafiku"

abbrev pub is_child : Role → Bool
is_child role = same_role role child

-- `threadWhereForRole`
abbrev pub thread_where_for_role : Role → Thread → Bool
thread_where_for_role role t = if is_child role then is_family t.audience else true

-- `canUserAccessThread`, for a thread that was found.
abbrev pub can_user_access_thread : Role → Thread → Bool
can_user_access_thread role t = if is_child role then is_family t.audience else true

-- `canUserSendMessage`
abbrev pub can_user_send_message : Role → Thread → Bool
can_user_send_message role t =
    if not (can_user_access_thread role t)
    then false
    else if t.is_system_channel
    then is_parent role
    else if is_child role
    then is_family t.audience
    else is_parent role

-- `new Set(ids).size === ids.length`: no id comes twice.
abbrev pub all_different : List ℕ → Bool
all_different [] = true
all_different (x ∷ xs) = not (mem_id x xs) && all_different xs

abbrev pub all_in : List ℕ → List ℕ → Bool
all_in required [] = true
all_in required (x ∷ xs) = mem_id x required && all_in required xs

-- `assertValidParentThreadKeys`, on the ids of the workspace's parents.
unfoldable pub check_thread_keys : List ℕ → List ℕ → Result (Unit {0})
check_thread_keys required provided = do
  throw_if (length provided == 0) invalid_thread_keys
  throw_if (not (all_different provided)) invalid_thread_keys
  throw_if (not (length provided == length required)) invalid_thread_keys
  throw_if (not (all_in required provided)) invalid_thread_keys
  ok tt
