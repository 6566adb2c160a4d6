-- ===== src/Documents/Quota.antt =====
-- What the quota of src/services/documents.js keeps, and when an upload goes through.
use coparentes_backend.Common.{
  Option, none, some, String, str_eq, if◌then◌else◌, ℕ, ◌+◌, ◌≤◌, ◌<◌, ◌≡◌, refl, ap, inl, inr,
  true, false, List, [], ◌∷◌, ◌++◌, arith, filter, length, ◌>>◌, Result-cases, subst, ok,
  ok_injective, ◌==◌, Bool-cases,
}
use coparentes_backend.Common.Store.{Store}
use coparentes_backend.Common.Rows.{filter-append}
use coparentes_backend.Finances.Expenses.{present}
use coparentes_backend.Documents.Vault.{
  Document, NewDocument, Platform, Db, in_workspace, total_bytes, assert_quota, decoded_length,
  document_row, is_allowed_category, check_child, check_content, create_document,
  document_count_limit, document_storage_limit,
}

assert_quota_sound :
    (count bytes incoming : ℕ)
    → assert_quota count bytes incoming ≡ ok tt
    → (count < document_count_limit) × (bytes + incoming ≤ document_storage_limit)
unfolding assert_quota
assert_quota_sound count bytes incoming h = ground arith

total_bytes-append :
    (ds es : List Document) → total_bytes (ds ++ es) ≡ total_bytes ds + total_bytes es
total_bytes-append [] es = omega arith
total_bytes-append (d ∷ ds) es = omega (arith, total_bytes-append ds es)

length-append_one : (ds : List Document) (d : Document) → length (ds ++ d ∷ []) ≡ length ds + 1
length-append_one [] d = refl
length-append_one (x ∷ ds) d = omega (arith, length-append_one ds d)

-- The rows of a workspace fit its quota.
abbrev pub Fits : ℕ → List Document → Type 0
Fits ws ds =
    (length (filter (in_workspace ws) ds) ≤ 200)
    × (total_bytes (filter (in_workspace ws) ds) ≤ 104857600)

-- The length of what a content decodes to; an absent or empty content has none.
abbrev pub content_bytes : Platform → Option String → ℕ
content_bytes p none = 0
content_bytes p (some c) = if str_eq c "" then 0 else length (p.decode c)

Fits-added :
    (ws : ℕ) (ds : List Document) (d : Document)
    → (d.workspace_id == ws) ≡ true
    → length (filter (in_workspace ws) ds) < document_count_limit
    → total_bytes (filter (in_workspace ws) ds) + d.size_bytes ≤ document_storage_limit
    → Fits ws (ds ++ d ∷ [])
Fits-added ws ds d own room bytes =
    rw (filter-append (in_workspace ws) ds (d ∷ []), own)
      (
        omega (arith, length-append_one (filter (in_workspace ws) ds) d),
        omega (arith, total_bytes-append (filter (in_workspace ws) ds) (d ∷ [])),
      )

Fits-other :
    (ws : ℕ) (ds : List Document) (d : Document)
    → (d.workspace_id == ws) ≡ false
    → Fits ws ds
    → Fits ws (ds ++ d ∷ [])
Fits-other ws ds d other (room, bytes) =
    rw (filter-append (in_workspace ws) ds (d ∷ []), other)
      (
        omega (arith, length-append_none (filter (in_workspace ws) ds)),
        omega (arith, total_bytes-append (filter (in_workspace ws) ds) []),
      )
  where
    length-append_none : (ds : List Document) → length (ds ++ []) ≡ length ds
    length-append_none [] = refl
    length-append_none (x ∷ ds) = omega (arith, length-append_none ds)

module _ (s : Store) (p : Platform) where
  abbrev Uploaded : Db s → Db s → NewDocument → Document → Type 0
  Uploaded db db' x d =
      (s.rows db'.documents ≡ s.rows db.documents ++ d ∷ [])
      × (d.workspace_id ≡ x.workspace_id)
      × (d.size_bytes ≡ content_bytes p x.content)
      × (length (filter (in_workspace x.workspace_id) (s.rows db.documents)) < document_count_limit)
      × (total_bytes (filter (in_workspace x.workspace_id) (s.rows db.documents)) + d.size_bytes
          ≤ document_storage_limit)

  decoded_bytes : (c : Option String) → decoded_length s p (present c) ≡ content_bytes p c
  decoded_bytes none = refl
  decoded_bytes (some c) = elim (Bool-cases (str_eq c "")) [ inl e ↦ rw e refl | inr e ↦ rw e refl ]

  -- What is left of an upload behind its first three checks.
  quota_passed :
      (db db' : Db s) (id : ℕ) (x : NewDocument) (d : Document)
      → (let used = s.find_many (in_workspace x.workspace_id) db.documents in
          let stored : Document × Db s = (
            document_row s p id x,
            record db { documents = s.create (document_row s p id x) db.documents },
          ) in
          assert_quota (length used) (total_bytes used) (decoded_length s p (present x.content))
          >> ok stored)
        ≡ ok (d, db')
      → Uploaded db db' x d
  unfolding document_row
  quota_passed db db' id x d h =
      elim (Result-cases (
        assert_quota (length (s.find_many (in_workspace x.workspace_id) db.documents))
          (total_bytes (s.find_many (in_workspace x.workspace_id) db.documents))
          (decoded_length s p (present x.content)))) [
            | inl (_, e) ↦ absurd (cc (rw e at h))
            | inr (_, passed) ↦
                let e = ok_injective (rw passed at h) in
                let bounds = assert_quota_sound _ _ _ (rw s.find_many-rows at passed) in
                subst (λ r. Uploaded db r x d) (ap (λ t. t.1) e)
                  (subst
                    (λ r.
                      Uploaded db
                        (record db { documents = s.create (document_row s p id x) db.documents }) x
                        r)
                    (ap (λ t. t.0) e)
                    (rw s.rows-create (refl, refl, decoded_bytes x.content, bounds.0, bounds.1)))
          ]

  create_document_parts :
      (db db' : Db s) (id : ℕ) (x : NewDocument) (d : Document)
      → create_document s p db id x ≡ ok (d, db')
      → Uploaded db db' x d
  unfolding create_document
  create_document_parts db db' id x d h = elim (Bool-cases (is_allowed_category x.category)) [
    | inr bad ↦ absurd (cc (rw bad at h))
    | inl good ↦ elim (Result-cases (check_child s p db x.workspace_id x.child_id)) [
      | inl (_, e) ↦ absurd (cc (rw (good, e) at h))
      | inr (_, child) ↦ elim (Result-cases (check_content s p x (present x.content))) [
        | inl (_, e) ↦ absurd (cc (rw (good, child, e) at h))
        | inr (_, content) ↦ quota_passed db db' id x d (rw (good, child, content) at h)
      ]
    ]
  ]

  -- An upload that returns adds one row, at the end of the table and in the caller's workspace, with the number of bytes that the content decodes
  -- to as its size, and leaves every workspace with at most 200 documents and 104857600 bytes of such sizes, where it was so
  -- before.
  pub create_document-Fits :
      (db db' : Db s) (id v : ℕ) (x : NewDocument) (d : Document)
      → create_document s p db id x ≡ ok (d, db')
      → Fits v (s.rows db.documents)
      → (s.rows db'.documents ≡ s.rows db.documents ++ d ∷ [])
        × (d.workspace_id ≡ x.workspace_id)
        × (d.size_bytes ≡ content_bytes p x.content)
        × Fits v (s.rows db'.documents)
  create_document-Fits db db' id v x d h fits =
      let (rows, own, size, room, bytes) = create_document_parts db db' id x d h in
      (
        rows,
        own,
        size,
        elim (Bool-cases (x.workspace_id == v)) [
          | inl same ↦
              let e : x.workspace_id ≡ v = ground (arith, same) in
              let mine : (d.workspace_id == v) ≡ true = ground (arith, own, e) in
              rw rows (Fits-added v (s.rows db.documents) d mine (rw e at room) (rw e at bytes))
          | inr other ↦
              let away : (d.workspace_id == v) ≡ false = ground (arith, own, other) in
              rw rows (Fits-other v (s.rows db.documents) d away fits)
        ],
      )
