-- ===== src/Threads/Attachments/Limits.antt =====
-- What the checks of attachments let through.
use coparentes_backend.Common.{
  ℕ, suc, ◌≤◌, ◌≡◌, refl, ap, subst, inl, inr, false, ◌||◌, str_eq, List, [], ◌∷◌, length, All, ltb,
  Bool-cases, Result-cases, ok, ok_injective, arith,
}
use coparentes_backend.Threads.Attachments.{
  exceeds, RawAttachment, Attachment, AttachmentOps, attachment_of, normalize_one, normalize_each,
  normalize_attachments,
}

-- A name, a content, and at most 256 KiB by the size that is stored.
abbrev pub IsAccepted : Attachment → Type 0
IsAccepted a =
    (str_eq a.name "" ≡ false)
    × (str_eq a.content_base64 "" ≡ false)
    × (exceeds a.size_bytes 262144 ≡ false)

module _ (o : AttachmentOps) where
  one-IsAccepted :
      (index : ℕ) (r : RawAttachment) (a : Attachment)
      → normalize_one o index r ≡ ok a
      → IsAccepted a
  unfolding normalize_one
  one-IsAccepted index r a e =
      let b = attachment_of o index r in
      elim (Bool-cases (str_eq b.name "" || str_eq b.content_base64 "")) [
        | inl blank ↦ absurd (cc (rw blank at e))
        | inr filled ↦ elim (Bool-cases (exceeds b.size_bytes 262144)) [
          | inl large ↦ absurd (cc (rw (filled, large) at e))
          | inr small ↦
              subst IsAccepted (ok_injective (rw (filled, small) at e))
                (ground (arith, filled), ground (arith, filled), small)
        ]
      ]

  each-IsAccepted :
      (index : ℕ) (rs : List RawAttachment) (xs : List Attachment)
      → normalize_each o index rs ≡ ok xs
      → All IsAccepted xs × (length xs ≡ length rs)
  unfolding normalize_each
  each-IsAccepted index [] xs e =
      subst (λ (ys : List Attachment). All IsAccepted ys × (length ys ≡ 0)) (ok_injective e)
        (tt, refl)
  each-IsAccepted index (r ∷ rs) xs e = elim (Result-cases (normalize_one o index r)) [
    | inl (c, bad) ↦ absurd (cc (rw bad at e))
    | inr (a, good) ↦ elim (Result-cases (normalize_each o (suc index) rs)) [
      | inl (c, bad) ↦ absurd (cc (rw (good, bad) at e))
      | inr (rest, fine) ↦
          let (all, same) = each-IsAccepted (suc index) rs rest fine in
          subst (λ (ys : List Attachment). All IsAccepted ys × (length ys ≡ suc (length rs)))
            (ok_injective (rw (good, fine) at e))
            ((one-IsAccepted index r a good, all), ap suc same)
    ]
  ]

  -- A call of `normalizeAttachments` that returns keeps every attachment of at most three, each with a name, a content and a
  -- stored size of at most 262144 bytes.
  pub normalize-IsAccepted :
      (rs : List RawAttachment) (xs : List Attachment)
      → normalize_attachments o rs ≡ ok xs
      → (length xs ≡ length rs) × (length rs ≤ 3) × All IsAccepted xs
  unfolding normalize_attachments
  normalize-IsAccepted rs xs e = elim (Bool-cases (ltb 3 (length rs))) [
    | inl many ↦ absurd (cc (rw many at e))
    | inr few ↦
        let (all, same) = each-IsAccepted 0 rs xs (rw few at e) in (same, ground (arith, few), all)
  ]
