-- ===== src/Documents/Access.antt =====
-- Who sees and who deletes a private document.
use mathlib.Core.List.{Memᴰ}
use coparentes_backend.Common.{
  ℕ, ◌≡◌, ◌≢◌, refl, inl, inr, ◌⊎◌, Bool, true, false, not, ◌&&◌, ◌||◌, Option, none, some, arith,
  All, filter, String, ap, subst, Result, ok, err, forbidden, document_not_found, ◌==◌, Bool-cases,
}
use coparentes_backend.Common.Store.{Store, Finds}
use coparentes_backend.Common.Rows.{mem-filter_sound}
use coparentes_backend.Documents.Vault.{
  Document, Platform, Db, is_private, in_workspace, list_documents, download_found,
  get_document_download, delete_found, delete_document,
}

-- A document that the user may see: not private, or the user's own.
abbrev pub IsVisible : ℕ → ℕ → Document → Type 0
IsVisible ws user_id d =
    (d.workspace_id ≡ ws) × ((is_private d ≡ false) ⊎ (d.uploaded_by_id ≡ user_id))

abbrev visible_test : ℕ → ℕ → Document → Bool
visible_test ws user_id d =
    in_workspace ws d && (not (is_private d) || (is_private d && d.uploaded_by_id == user_id))

visible_test-IsVisible :
    (ws user_id : ℕ) (d : Document) → visible_test ws user_id d ≡ true → IsVisible ws user_id d
visible_test-IsVisible ws user_id d h = ground arith

module _ (s : Store) (p : Platform) where
  -- What each ending of `deleteDocument` says: the document with the id was the requester's own private one, and
  -- just the rows with the id are gone; or nothing is written, and there is no such document, or it is not
  -- private or another user's.
  abbrev pub Deletes : Db s → ℕ → ℕ → ℕ → Result (Db s) → Type 0
  Deletes db ws id user (ok db') =
      (d : Document) × Memᴰ d (s.rows db.documents)
      × (d.id ≡ id)
      × (d.workspace_id ≡ ws)
      × (is_private d ≡ true)
      × (d.uploaded_by_id ≡ user)
      × (s.rows db'.documents ≡ filter (λ r. not (r.id == id)) (s.rows db.documents))
  Deletes db ws id user (err e) =
      ((e ≡ document_not_found)
        × All (λ d. (d.id == id && d.workspace_id == ws) ≡ false) (s.rows db.documents))
      ⊎ ((e ≡ forbidden)
          × ((d : Document) × Memᴰ d (s.rows db.documents)
              × (d.id ≡ id)
              × ((is_private d ≡ false) ⊎ (d.uploaded_by_id ≢ user))))

  delete_found-Deletes :
      (db : Db s) (ws id user : ℕ) (o : Option Document)
      → Finds (λ d. d.id == id && d.workspace_id == ws) (s.rows db.documents) o
      → Deletes db ws id user (delete_found s p db id user o)
  unfolding delete_found
  delete_found-Deletes db ws id user none found = inl (refl, found)
  delete_found-Deletes db ws id user (some d) (hit, m) = elim (Bool-cases (is_private d)) [
    | inr shared ↦ rw shared (inr (refl, (d, m, ground (arith, hit), inl shared)))
    | inl secret ↦ elim (Bool-cases (d.uploaded_by_id == user)) [
      | inr other ↦
          rw (secret, other) (inr (refl, (d, m, ground (arith, hit), inr (ground (arith, other)))))
      | inl own ↦
          rw (secret, own)
            (
              d,
              m,
              ground (arith, hit),
              ground (arith, hit),
              secret,
              ground (arith, own),
              s.rows-delete_many _ _,
            )
    ]
  ]

  -- A call of `deleteDocument` that returns found a private document that the requester uploaded, with the id and in
  -- the workspace, and removes just the rows with the id; one that throws found no such document, or one that is not
  -- private or another user's, as its code says.
  pub delete_document-Deletes :
      (db : Db s) (ws id user : ℕ) → Deletes db ws id user (delete_document s p db ws id user)
  unfolding delete_document
  delete_document-Deletes db ws id user =
      delete_found-Deletes db ws id user _ (s.find_first-Finds _ db.documents)

  -- Every document that `listDocuments` shows a user is one of the user's workspace in the table, and not
  -- private unless the user uploaded it.
  pub listed-IsVisible :
      (db : Db s) (ws user : ℕ) (d : Document)
      → Memᴰ d (list_documents s p db ws user)
      → IsVisible ws user d × Memᴰ d (s.rows db.documents)
  unfolding list_documents
  listed-IsVisible db ws user d m =
      let h =
        mem-filter_sound (visible_test ws user) (s.rows db.documents) (rw s.find_many-rows at m) in
      (visible_test-IsVisible ws user d h.0, h.1)

  download_found-IsVisible :
      (db : Db s) (ws id user : ℕ) (o : Option Document) (d : Document) {c : Option (Option String)}
      → Finds (λ d. d.id == id && d.workspace_id == ws) (s.rows db.documents) o
      → download_found s p user o ≡ some (d, c)
      → IsVisible ws user d × Memᴰ d (s.rows db.documents)
  unfolding download_found
  download_found-IsVisible db ws id user none d found h = absurd (cc (h))
  download_found-IsVisible db ws id user (some x) d (hit, m) h =
      elim (Bool-cases (is_private x && not (x.uploaded_by_id == user))) [
        | inl kept ↦ absurd (cc (rw kept at h))
        | inr open_to ↦
            let e = some_injective (rw open_to at h) in
            subst (λ y. IsVisible ws user y × Memᴰ y (s.rows db.documents)) (ap (λ t. t.0) e)
              (ground (arith, hit, open_to), m)
      ]
    where
      some_injective : {A : Type 0} {a b : A} → some a ≡ some b → a ≡ b
      some_injective e = cc

  -- A document that `getDocumentDownload` hands out is one of the workspace, and not private unless the
  -- user uploaded it.
  pub downloaded-IsVisible :
      (db : Db s) (ws id user : ℕ) (d : Document) {c : Option (Option String)}
      → get_document_download s p db ws id user ≡ some (d, c)
      → IsVisible ws user d × Memᴰ d (s.rows db.documents)
  unfolding get_document_download
  downloaded-IsVisible db ws id user d h =
      download_found-IsVisible db ws id user _ d (s.find_first-Finds _ db.documents) h
