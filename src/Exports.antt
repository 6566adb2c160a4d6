-- ===== src/Exports.antt =====
-- Exports (src/services/exports.js). The exported slots, events and expenses, the workspace's graph, JSON, the hash of the manifest and
-- new ids are arguments; the server's zone is UTC. `createdAt` is the order of the rows.
pub mod Lifetime
pub mod Scope
mod Tests
use mathlib.Core.List.{reverse}
use coparentes_backend.Common.{
  ℕ, Bool, true, false, not, ◌&&◌, Option, none, some, String, List, [], ◌∷◌, ◌++◌, map, filter,
  length, ◌==◌, ltb, leb, if◌then◌else◌,
}
use coparentes_backend.Common.Store.{Store}
use coparentes_backend.Crypto.{Cipher, key_general, encrypt, decrypt_optional}
use coparentes_backend.Custody.Dates.{add_utc_days}
use coparentes_backend.Custody.Pattern.{parent_a}
use coparentes_backend.Threads.{Thread, Message, ThreadDb}
use coparentes_backend.Threads.Rooms.{list_threads, get_thread_by_id}

pub data ExportType : Type 0 where
  messages calendar finances full_pack : ExportType

-- One item of a payload.
pub data Item (CalendarItem Expense : Type 0) : Type 0 where
  message_thread : Thread × List Message → Item CalendarItem Expense
  calendar_item : CalendarItem → Item CalendarItem Expense
  expense : Expense → Item CalendarItem Expense

pub record Payload (CalendarItem Expense : Type 0) : Type 0 where
  pub id : ℕ
  pub export_type : ExportType
  pub from_date : ℕ
  pub to_date : ℕ
  pub generated_at : ℕ
  pub workspace : String
  pub items : List (Item CalendarItem Expense)

pub record ExportJob : Type 0 where
  pub id : ℕ
  pub workspace_id : ℕ
  pub requested_by_id : ℕ
  pub export_type : ExportType
  pub thread_id : Option ℕ
  pub from_date : ℕ
  pub to_date : ℕ
  pub manifest_hash : String
  pub payload_json : String
  pub expires_at : Option ℕ

-- What a caller asks for, with the new ids and the time.
pub record Order : Type 0 where
  pub workspace_id : ℕ
  pub requested_by_id : ℕ
  pub export_type : ExportType
  pub thread_id : Option ℕ
  pub from_date : ℕ
  pub to_date : ℕ
  pub job_id : ℕ
  pub payload_id : ℕ
  pub now : ℕ

-- `sentAt >= from && sentAt <= to`
abbrev pub is_within : ℕ → ℕ → Message → Bool
is_within from to m = leb from m.sent_at && leb m.sent_at to

abbrev pub keep_within : ℕ → ℕ → Thread × List Message → Thread × List Message
keep_within from to (t, ms) = (t, filter (is_within from to) ms)

abbrev pub has_messages : Thread × List Message → Bool
has_messages (t, ms) = ltb 0 (length ms)

-- `filterThreadsByDateRange`
unfoldable pub filter_threads_by_date_range :
    List (Thread × List Message) → ℕ → ℕ → List (Thread × List Message)
filter_threads_by_date_range threads from to =
    filter has_messages (map (keep_within from to) threads)

-- `row.expiresAt && row.expiresAt < now`, which is also what `purgeExpiredExportJobs` asks.
abbrev pub is_expired : ℕ → ExportJob → Bool
is_expired now j = elim j.expires_at [ none ↦ false | some t ↦ ltb t now ]

-- `where: { id, workspaceId }`
abbrev pub is_job : ℕ → ℕ → ExportJob → Bool
is_job ws id j = j.id == id && j.workspace_id == ws

module _ (s : Store) where
  abbrev pub one_thread : Option (Thread × List Message) → List (Thread × List Message)
  one_thread none = []
  one_thread (some t) = t ∷ []

  -- `loadMessageThreads`; the role is the default one.
  unfoldable pub load_message_threads : ThreadDb s → ℕ → Option ℕ → List (Thread × List Message)
  unfolding list_threads get_thread_by_id
  load_message_threads db ws none = list_threads s db ws parent_a
  load_message_threads db ws (some id) = one_thread (get_thread_by_id s db ws id parent_a)

  -- `listExportJobs`, newest first.
  unfoldable pub list_export_jobs : s.Table ExportJob → ℕ → List ExportJob
  list_export_jobs t ws = reverse (s.find_many (λ j. j.workspace_id == ws) t)

  -- `purgeExpiredExportJobs`
  unfoldable pub purge_expired_export_jobs : ℕ → s.Table ExportJob → s.Table ExportJob
  purge_expired_export_jobs now = s.delete_many (is_expired now)

  module _ {CalendarItem Expense : Type 0} where
    -- The items of `buildExportPayload`.
    unfoldable pub export_items :
        ThreadDb s → Order → List CalendarItem → List Expense → List (Item CalendarItem Expense)
    unfolding load_message_threads filter_threads_by_date_range
    export_items db order calendar_items expenses =
        let threads = map message_thread (
          filter_threads_by_date_range (load_message_threads db order.workspace_id order.thread_id)
            order.from_date order.to_date) in
        elim order.export_type [
          | messages ↦ threads
          | calendar ↦ map calendar_item calendar_items
          | finances ↦ map expense expenses
          | full_pack ↦ threads ++ (map calendar_item calendar_items ++ map expense expenses)
        ]

    -- `buildExportPayload`
    unfoldable pub build_export_payload :
        ThreadDb s
        → Order
        → String
        → List CalendarItem
        → List Expense
        → Payload CalendarItem Expense
    unfolding export_items
    build_export_payload db order graph calendar_items expenses = record {
      id = order.payload_id;
      export_type = order.export_type;
      from_date = order.from_date;
      to_date = order.to_date;
      generated_at = order.now;
      workspace = graph;
      items = export_items db order calendar_items expenses;
    }

-- `JSON.stringify`, `JSON.parse` (`none` where it throws) and `createIntegrityHash`, on payloads.
pub record PayloadOps (CalendarItem Expense : Type 0) : Type 0 where
  pub to_json : Payload CalendarItem Expense → String
  pub parse : String → Option (Payload CalendarItem Expense)
  pub integrity_hash : Payload CalendarItem Expense → String

-- What `getExportDownload` returns: `null`, `{ expired: true }`, an error of reading the payload, or the job with its payload.
pub data Download (CalendarItem Expense : Type 0) : Type 0 where
  gone expired unreadable : Download CalendarItem Expense
  downloaded : ExportJob → Payload CalendarItem Expense → Download CalendarItem Expense

module _ (s : Store) (c : Cipher) {CalendarItem Expense : Type 0}
    (o : PayloadOps CalendarItem Expense) where
  -- The row of `createExportJob`.
  unfoldable pub job_row : Order → Payload CalendarItem Expense → ℕ → ExportJob
  unfolding add_utc_days
  job_row order payload ttl_days = record {
    id = order.job_id;
    workspace_id = order.workspace_id;
    requested_by_id = order.requested_by_id;
    export_type = order.export_type;
    thread_id = order.thread_id;
    from_date = order.from_date;
    to_date = order.to_date;
    manifest_hash = o.integrity_hash payload;
    payload_json = encrypt c (o.to_json payload) key_general;
    expires_at = some (add_utc_days order.now ttl_days);
  }

  -- `createExportJob`
  unfoldable pub create_export_job :
      s.Table ExportJob → Order → Payload CalendarItem Expense → ℕ → ExportJob × s.Table ExportJob
  unfolding job_row
  create_export_job t order payload ttl_days =
      (job_row order payload ttl_days, s.create (job_row order payload ttl_days) t)

  abbrev pub parsed : ExportJob → Option String → Download CalendarItem Expense
  parsed j none = unreadable
  parsed j (some json) = elim (o.parse json) [
    | none ↦ unreadable
    | some payload ↦ downloaded j payload
  ]

  unfoldable pub download_found : ℕ → Option ExportJob → Download CalendarItem Expense
  download_found now none = gone
  download_found now (some j) =
      if is_expired now j then expired else parsed j (decrypt_optional c j.payload_json)

  -- `getExportDownload`
  unfoldable pub get_export_download : s.Table ExportJob → ℕ → ℕ → ℕ → Download CalendarItem Expense
  unfolding download_found
  get_export_download t ws id now = download_found now (s.find_first (is_job ws id) t)
