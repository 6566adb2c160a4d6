-- ===== src/Exports/Lifetime.antt =====
-- How long an export can be downloaded.
use coparentes_backend.Common.{
  ℕ, ◌+◌, ◌≤◌, ◌≡◌, refl, ◌∙◌, inl, inr, true, false, not, none, some, str_eq, List, [], ◌∷◌, count,
  All, ==_iff, Option-cases, arith,
}
use coparentes_backend.Common.Store.{Store, find}
use coparentes_backend.Common.Rows.{mem-filter_of}
use coparentes_backend.Common.Rows.Unique.{
  Finds-find, find-some, find_hit, find-append_one, count-append_one, count_of_find-none,
}
use coparentes_backend.Common.Rows.Views.{count-filter-le}
use coparentes_backend.Crypto.{Cipher, key_general, is_encrypted}
use coparentes_backend.Crypto.RoundTrip.{decrypt_optional-encrypt}
use coparentes_backend.Custody.Dates.{add_utc_days}
use coparentes_backend.Exports.{
  ExportJob, Order, Payload, PayloadOps, expired, downloaded, is_expired, is_job, job_row,
  create_export_job, get_export_download, parsed, purge_expired_export_jobs,
}

-- Purges at some times, one after the other.
abbrev pub purges : (s : Store) → List ℕ → s.Table ExportJob → s.Table ExportJob
purges s [] t = t
purges s (n ∷ ns) t = purges s ns (purge_expired_export_jobs s n t)

expired_later :
    (j : ExportJob) (n now : ℕ) → n ≤ now → is_expired now j ≡ false → is_expired n j ≡ false
expired_later j n now before e = elim (Option-cases j.expires_at) [
  | inl never ↦ rw never refl
  | inr (t, till) ↦ rw till (ground (arith, before, (rw till at e)))
]

module _ (s : Store) (c : Cipher) {CalendarItem Expense : Type 0}
    (o : PayloadOps CalendarItem Expense) where
  -- JSON gives back the payload, and its text begins with a brace: it is not empty and has no prefix of encrypted texts.
  pub record ReadsBack (payload : Payload CalendarItem Expense) : Type 0 where
    pub parse-to_json : o.parse (o.to_json payload) ≡ some payload
    pub filled : str_eq (o.to_json payload) "" ≡ false
    pub plain : is_encrypted (o.to_json payload) ≡ false

  job_found :
      (t : s.Table ExportJob) (ws id : ℕ)
      → count (is_job ws id) (s.rows t) ≤ 1
      → s.find_first (is_job ws id) t ≡ find (is_job ws id) (s.rows t)
  job_found t ws id one = Finds-find (is_job ws id) (s.rows t) _ one (s.find_first-Finds _ t)

  purged_once :
      (t : s.Table ExportJob) (ws id n : ℕ)
      → count (is_job ws id) (s.rows t) ≤ 1
      → count (is_job ws id) (s.rows (purge_expired_export_jobs s n t)) ≤ 1
  unfolding purge_expired_export_jobs
  purged_once t ws id n one =
      rw s.rows-delete_many
        (omega (arith, one, count-filter-le (is_job ws id) (λ j. not (is_expired n j)) (s.rows t)))

  purge_keeps :
      (t : s.Table ExportJob) (ws id n now : ℕ) (j : ExportJob)
      → count (is_job ws id) (s.rows t) ≤ 1
      → n ≤ now
      → find (is_job ws id) (s.rows t) ≡ some j
      → is_expired now j ≡ false
      → find (is_job ws id) (s.rows (purge_expired_export_jobs s n t)) ≡ some j
  unfolding purge_expired_export_jobs
  purge_keeps t ws id n now j one before found alive =
      let (hit, m) = find_hit (is_job ws id) (s.rows t) found in
      let kept : not (is_expired n j) ≡ true = rw (expired_later j n now before alive) refl in
      find-some (is_job ws id) _ (purged_once t ws id n one)
        (rw s.rows-delete_many
          (mem-filter_of (λ (k : ExportJob). not (is_expired n k)) (s.rows t) kept m))
        hit

  purges_keep :
      (ns : List ℕ) (t : s.Table ExportJob) (ws id now : ℕ) (j : ExportJob)
      → count (is_job ws id) (s.rows t) ≤ 1
      → All (λ n. n ≤ now) ns
      → find (is_job ws id) (s.rows t) ≡ some j
      → is_expired now j ≡ false
      → s.find_first (is_job ws id) (purges s ns t) ≡ some j
  purges_keep [] t ws id now j one before found alive = job_found t ws id one ∙ found
  purges_keep (n ∷ ns) t ws id now j one before found alive =
      purges_keep ns (purge_expired_export_jobs s n t) ws id now j (purged_once t ws id n one)
        before.1 (purge_keeps t ws id n now j one before.0 found alive) alive

  read_back :
      (row : ExportJob) (payload : Payload CalendarItem Expense)
      → ReadsBack payload
      → parsed s c o row (some (o.to_json payload)) ≡ downloaded row payload
  read_back row payload back = rw (back.parse-to_json, parsed) refl

  -- An export that was created with a new id can be downloaded in its workspace until it expires, whatever purges ran before: the answer is the
  -- job with the payload that was built. After that the answer is that it has expired, as long as no purge ran. JSON gives back the payload.
  pub download-created :
      (t : s.Table ExportJob) (order : Order) (payload : Payload CalendarItem Expense)
      (ttl_days now later : ℕ) (ns : List ℕ)
      → ReadsBack payload
      → find (is_job order.workspace_id order.job_id) (s.rows t) ≡ none
      → now ≤ add_utc_days order.now ttl_days
      → All (λ n. n ≤ now) ns
      → add_utc_days order.now ttl_days + 1 ≤ later
      → let (row, after) = create_export_job s c o t order payload ttl_days in
        (get_export_download s c o (purges s ns after) order.workspace_id order.job_id now
          ≡ downloaded row payload)
        × (get_export_download s c o after order.workspace_id order.job_id later ≡ expired)
  unfolding create_export_job get_export_download
  download-created t order payload ttl_days now later ns back fresh in_time before late =
      let ws = order.workspace_id in
      let id = order.job_id in
      let row = job_row s c o order payload ttl_days in
      let after = s.create row t in
      let mine : is_job ws id row ≡ true = rw ((==_iff id id).1 refl, (==_iff ws ws).1 refl) refl in
      let one : count (is_job ws id) (s.rows after) ≤ 1 =
        rw
          (
            s.rows-create,
            count-append_one,
            mine,
            count_of_find-none (is_job ws id) (s.rows t) fresh,
          )
          (omega arith) in
      let there : find (is_job ws id) (s.rows after) ≡ some row =
        rw (s.rows-create, find-append_one, fresh, mine) refl in
      let alive : is_expired now row ≡ false = ground (arith, in_time) in
      let dead : is_expired later row ≡ true = ground (arith, late) in
      (
        rw
            (
              purges_keep ns after ws id now row one before there alive,
              alive,
              decrypt_optional-encrypt c (o.to_json payload) key_general back.filled back.plain,
            )
            (read_back row payload back),
        rw (job_found after ws id one, there, dead) refl,
      )
