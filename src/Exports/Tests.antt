-- ===== src/Exports/Tests.antt =====
-- An export over a small database kept as lists.
use mathlib.Core.List.{Memᴰ}
use coparentes_backend.Common.{All, ℕ, ◌≡◌, refl, none, some, List, [], ◌∷◌, arith}
use coparentes_backend.Common.Store.{list_store}
use coparentes_backend.Crypto.{is_encrypted}
use coparentes_backend.Crypto.Sample.{toy_cipher}
use coparentes_backend.Custody.Dates.{add_utc_days}
use coparentes_backend.Exports.{
  Order, Payload, PayloadOps, ExportJob, calendar, downloaded, expired, create_export_job, job_row,
  get_export_download, build_export_payload, filter_threads_by_date_range, load_message_threads,
}
use coparentes_backend.Exports.Lifetime.{ReadsBack, purges, download-created}
use coparentes_backend.Exports.Scope.{IsExported, IsWithin, load_message_threads-IsExported}
use coparentes_backend.Threads.{Thread, Message, ThreadDb}
use coparentes_backend.Threads.Messages.{user_message, post}
use coparentes_backend.Threads.Sample.{db}

abbrev order : Order
order = record {
  workspace_id = 1;
  requested_by_id = 2;
  export_type = calendar;
  thread_id = none;
  from_date = 0;
  to_date = 9;
  job_id = 5;
  payload_id = 6;
  now = 100;
}

abbrev payload : Payload ℕ ℕ
payload = build_export_payload list_store db order "graph" (3 ∷ []) []

abbrev ops : PayloadOps ℕ ℕ
ops = record { to_json = λ x. "{}"; parse = λ x. some payload; integrity_hash = λ x. "h" }

payload-ReadsBack : ReadsBack list_store toy_cipher ops payload
unfolding is_encrypted
payload-ReadsBack = record { parse-to_json = refl; filled = refl; plain = refl }

abbrev row : ExportJob
row = job_row list_store toy_cipher ops order payload 7

download-created_example :
    (get_export_download list_store toy_cipher ops (purges list_store (200 ∷ []) (row ∷ [])) 1 5 300
      ≡ downloaded row payload)
    × (get_export_download list_store toy_cipher ops (row ∷ []) 1 5 900000000 ≡ expired)
unfolding create_export_job add_utc_days
download-created_example =
    download-created list_store toy_cipher ops [] order payload 7 300 900000000 (200 ∷ [])
      payload-ReadsBack refl (omega arith) (omega arith, tt) (omega arith)

abbrev note : Message
note = user_message list_store toy_cipher 7 5 1 2 "Anna" "Hi" "neutral" none "h" 20

abbrev posted : ThreadDb list_store
posted = post list_store db note

load_message_threads-IsExported_example :
    All
      (IsExported 1 0 50)
      (filter_threads_by_date_range (load_message_threads list_store posted 1 none) 0 50)
    × ((t : Thread) (m : Message)
        → Memᴰ t posted.threads
        → t.workspace_id ≡ 1
        → Memᴰ m posted.messages
        → m.thread_id ≡ t.id
        → IsWithin 0 50 m
        → (v : Thread × List Message) × Memᴰ v
            (filter_threads_by_date_range (load_message_threads list_store posted 1 none) 0 50)
          × Memᴰ m v.1)
load_message_threads-IsExported_example =
    load_message_threads-IsExported list_store posted 1 0 50 none
