-- ===== src/Threads/Rooms.antt =====
-- Reading and making threads (src/services/threads.js).
use coparentes_backend.Common.{
  ℕ, Bool, false, not, ◌&&◌, Option, none, some, String, str_eq, List, [], ◌∷◌, map, any, ◌==◌,
  is_some, if◌then◌else◌, Result, ok, throw_if, ◌>>◌, invalid_category, child_not_found,
}
use coparentes_backend.Common.Store.{Store}
use coparentes_backend.Custody.Pattern.{Role, parent_a}
use coparentes_backend.Accounts.Joining.{list_parent_user_ids}
use coparentes_backend.Threads.{
  Audience, GivenKey, Member, Message, Thread, ThreadDb, ThreadKey, can_user_access_thread,
  category_channels, check_thread_keys, family_category, is_system_category, same_audience,
  thread_where_for_role, parents, family,
}

module _ (s : Store) where
  abbrev pub provided_ids : List GivenKey → List ℕ
  provided_ids = map (λ k. k.0)

  -- The keys that a request may leave out: checked when there are any.
  unfoldable pub check_given_keys : ThreadDb s → ℕ → List GivenKey → Result (Unit {0})
  unfolding check_thread_keys list_parent_user_ids
  check_given_keys db ws [] = ok tt
  check_given_keys db ws (k ∷ ks) =
      check_thread_keys (list_parent_user_ids s db.users ws) (provided_ids (k ∷ ks))

  -- `createThreadKeysInTx`
  unfoldable pub create_thread_keys : ℕ → List GivenKey → s.Table ThreadKey → s.Table ThreadKey
  create_thread_keys id [] t = t
  create_thread_keys id ((user, key) ∷ ks) t =
      create_thread_keys id ks
        (s.create (record { thread_id = id; user_id = user; encrypted_key = key }) t)

  -- `findFirst({ where: { id, workspaceId } })`
  abbrev pub find_thread : ThreadDb s → ℕ → ℕ → Option Thread
  find_thread db ws id = s.find_first (λ t. t.id == id && t.workspace_id == ws) db.threads

  abbrev pub with_messages : ThreadDb s → Thread → Thread × List Message
  with_messages db t = (t, s.find_many (λ m. m.thread_id == t.id) db.messages)

  -- `listThreads`, in the order of the table and before `serializeThread`.
  unfoldable pub list_threads : ThreadDb s → ℕ → Role → List (Thread × List Message)
  list_threads db ws role =
      map (with_messages db)
        (s.find_many (λ t. t.workspace_id == ws && thread_where_for_role role t) db.threads)

  abbrev pub shown : ThreadDb s → Role → Option Thread → Option (Thread × List Message)
  shown db role none = none
  shown db role (some t) = if can_user_access_thread role t then some (with_messages db t) else none

  -- `getThreadById`, before `serializeThread`.
  unfoldable pub get_thread_by_id : ThreadDb s → ℕ → ℕ → Role → Option (Thread × List Message)
  get_thread_by_id db ws id role = shown db role (find_thread db ws id)

  abbrev pub new_thread : ℕ → ℕ → String → String → Option ℕ → ℕ → Audience → Bool → ℕ → Thread
  new_thread id ws subject category child_id by audience system now = record {
    id = id;
    workspace_id = ws;
    subject = subject;
    category = category;
    child_id = child_id;
    created_by_id = by;
    audience = audience;
    is_system_channel = system;
    last_activity = now;
  }

  -- The transaction that writes a thread and its keys.
  abbrev pub write_thread : ThreadDb s → Thread → List GivenKey → ThreadDb s
  write_thread db t keys = record db {
    threads = s.create t db.threads;
    keys = create_thread_keys t.id keys db.keys;
  }

  -- `where: { workspaceId, category, subject: category, audience }`
  abbrev pub is_channel : ℕ → String → Audience → Thread → Bool
  is_channel ws category audience t =
      t.workspace_id == ws
      && (str_eq t.category category
          && (str_eq t.subject category && same_audience t.audience audience))

  -- A call on a thread answers with the thread as its caller sees it, and leaves the tables.
  abbrev pub Answer : Type 0
  Answer = Result (Option (Thread × List Message) × ThreadDb s)

  abbrev pub answer : ThreadDb s → ℕ → ℕ → Role → Answer
  answer db ws id role = ok (get_thread_by_id db ws id role, db)

  -- `getOrCreateFamilyThread` behind its search.
  unfoldable pub family_thread_found :
      ThreadDb s → ℕ → ℕ → Role → List GivenKey → ℕ → ℕ → Option Thread → Answer
  unfolding get_thread_by_id check_given_keys create_thread_keys
  family_thread_found db ws by role keys id now (some t) = answer db ws t.id role
  family_thread_found db ws by role keys id now none = do
    check_given_keys db ws keys
    let after =
        write_thread db (new_thread id ws family_category family_category none by family false now)
          keys
    answer after ws id role

  -- `getOrCreateFamilyThread`
  unfoldable pub get_or_create_family_thread :
      ThreadDb s → ℕ → ℕ → Role → List GivenKey → ℕ → ℕ → Answer
  unfolding family_thread_found
  get_or_create_family_thread db ws by role keys id now =
      family_thread_found db ws by role keys id now
        (s.find_first (is_channel ws family_category family) db.threads)

  -- `getOrCreateCategoryThread` behind its search: a system channel has no keys.
  unfoldable pub category_thread_found :
      ThreadDb s → ℕ → Member → String → List GivenKey → ℕ → ℕ → Option Thread → Answer
  unfolding get_thread_by_id check_given_keys create_thread_keys
  category_thread_found db ws by category keys id now (some t) = answer db ws t.id by.role
  category_thread_found db ws by category keys id now none =
      let used = if is_system_category category then [] else keys in
      check_given_keys db ws used
      >> (let after =
            write_thread db
              (new_thread id ws category category none by.id parents (is_system_category category)
                now)
              used in
          answer after ws id by.role)

  -- `getOrCreateCategoryThread`
  unfoldable pub get_or_create_category_thread :
      ThreadDb s → ℕ → Member → String → List GivenKey → ℕ → ℕ → Answer
  unfolding category_thread_found
  get_or_create_category_thread db ws by category keys id now = do
    throw_if (not (any (str_eq category) category_channels)) invalid_category
    category_thread_found db ws by category keys id now
        (s.find_first (is_channel ws category parents) db.threads)

  -- `if (childId)`: the child is one of the workspace.
  abbrev pub check_child : ThreadDb s → ℕ → Option ℕ → Result (Unit {0})
  check_child db ws none = ok tt
  check_child db ws (some c) =
      throw_if (not (is_some (s.find_first (λ r. r.id == c && r.workspace_id == ws) db.children)))
        child_not_found

  -- `createThread`; the family thread it hands on to is read as a parent.
  unfoldable pub create_thread :
      ThreadDb s → ℕ → Member → String → String → Option ℕ → List GivenKey → ℕ → ℕ → Answer
  unfolding get_or_create_family_thread get_or_create_category_thread
  create_thread db ws by subject category child_id keys id now =
      if str_eq subject category && str_eq category family_category
      then get_or_create_family_thread db ws by.id parent_a keys id now
      else if str_eq subject category && any (str_eq category) category_channels
      then get_or_create_category_thread db ws by category keys id now
      else check_given_keys db ws keys
        >> (check_child db ws child_id
            >> (let after =
                  write_thread db
                    (new_thread id ws subject category child_id by.id parents false now) keys in
                answer after ws id by.role))
