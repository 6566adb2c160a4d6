-- ===== src/Threads/Tags/Setting.antt =====
-- What setting the tags of a message leaves.
use mathlib.Core.List.{append-nil, append_assoc, map-append}
use coparentes_backend.Common.{
  own_key, ℕ, zero, suc, ◌≤◌, ◌≡◌, refl, sym, ap, subst, ◌∙◌, inl, inr, Bool, true, false, not,
  ◌&&◌, String, str_eq, List, [], ◌∷◌, ◌++◌, map, filter, take, length, length-take, All, ◌==◌,
  ==_iff, Bool-cases, Option-cases, ok, ok_injective, arith,
}
use coparentes_backend.Common.Store.{Store, Finds}
use coparentes_backend.Common.Rows.{filter-append}
use coparentes_backend.Threads.{Message}
use coparentes_backend.Threads.Tags.{
  UserTag, TagDb, TextOps, normalize_tag, has_tag, distinct_from, normalize_tags, is_on, tag_row,
  create_tags, set_message_tags,
}

-- No text twice, and none of those seen before.
abbrev pub IsDistinct : List String → List String → Type 0
IsDistinct seen [] = Unit
IsDistinct seen (t ∷ ts) = (has_tag t seen ≡ false) × IsDistinct (t ∷ seen) ts

distinct_from-IsDistinct : (seen ts : List String) → IsDistinct seen (distinct_from seen ts)
unfolding distinct_from
distinct_from-IsDistinct seen [] = tt
distinct_from-IsDistinct seen (t ∷ ts) = elim (Bool-cases (has_tag t seen)) [
  | inl again ↦ rw again (distinct_from-IsDistinct seen ts)
  | inr fresh ↦ rw fresh (fresh, distinct_from-IsDistinct (t ∷ seen) ts)
]

take-IsDistinct : (n : ℕ) (seen ts : List String) → IsDistinct seen ts → IsDistinct seen (take n ts)
take-IsDistinct zero seen ts h = tt
take-IsDistinct (suc n) seen [] h = tt
take-IsDistinct (suc n) seen (t ∷ ts) h = (h.0, take-IsDistinct n (t ∷ seen) ts h.1)

abbrev pub IsFilled : List String → Type 0
IsFilled = All (λ t. str_eq t "" ≡ false)

filter-IsFilled : (ts : List String) → IsFilled (filter (λ t. not (str_eq t "")) ts)
filter-IsFilled [] = tt
filter-IsFilled (t ∷ ts) = elim (Bool-cases (str_eq t "")) [
  | inl e ↦ rw e (filter-IsFilled ts)
  | inr e ↦ rw e (e, filter-IsFilled ts)
]

distinct_from-IsFilled : (seen ts : List String) → IsFilled ts → IsFilled (distinct_from seen ts)
unfolding distinct_from
distinct_from-IsFilled seen [] h = tt
distinct_from-IsFilled seen (t ∷ ts) h = elim (Bool-cases (has_tag t seen)) [
  | inl again ↦ rw again (distinct_from-IsFilled seen ts h.1)
  | inr fresh ↦ rw fresh (h.0, distinct_from-IsFilled (t ∷ seen) ts h.1)
]

take-IsFilled : (n : ℕ) (ts : List String) → IsFilled ts → IsFilled (take n ts)
take-IsFilled zero ts h = tt
take-IsFilled (suc n) [] h = tt
take-IsFilled (suc n) (t ∷ ts) h = (h.0, take-IsFilled n ts h.1)

abbrev pub tags_on : ℕ → ℕ → List UserTag → List String
tags_on user message rs = map (λ (r : UserTag). r.tag) (filter (is_on user message) rs)

filter_gone : (p : UserTag → Bool) (rs : List UserTag) → filter p (filter (λ r. not (p r)) rs) ≡ []
filter_gone p [] = refl
filter_gone p (r ∷ rs) = elim (Bool-cases (p r)) [
  | inl e ↦ rw e (filter_gone p rs)
  | inr e ↦ rw (e, e) (filter_gone p rs)
]

filter_apart :
    (p q : UserTag → Bool) (rs : List UserTag)
    → ((r : UserTag) → p r ≡ true → q r ≡ false)
    → filter p (filter (λ r. not (q r)) rs) ≡ filter p rs
filter_apart p q [] apart = refl
filter_apart p q (r ∷ rs) apart = elim (Bool-cases (p r)) [
  | inl e ↦ rw (apart r e, e) (ap (λ xs. r ∷ xs) (filter_apart p q rs apart))
  | inr e ↦ elim (Bool-cases (q r)) [
    | inl gone ↦ rw (gone, e) (filter_apart p q rs apart)
    | inr kept ↦ rw (kept, e) (filter_apart p q rs apart)
  ]
]

normalized :
    (o : TextOps) (tags : List String)
    → (length (normalize_tags o tags) ≤ 10)
      × IsFilled (normalize_tags o tags)
      × IsDistinct [] (normalize_tags o tags)
unfolding normalize_tags
normalized o tags =
    let kept = filter (λ t. not (str_eq t "")) (map (normalize_tag o) tags) in
    (
      rw (length-take 10 (distinct_from [] kept)) (omega arith),
      take-IsFilled 10 (distinct_from [] kept)
          (distinct_from-IsFilled [] kept (filter-IsFilled (map (normalize_tag o) tags))),
      take-IsDistinct 10 [] (distinct_from [] kept) (distinct_from-IsDistinct [] kept),
    )

apart :
    (user message u k : ℕ)
    → (user == u && message == k) ≡ false
    → (r : UserTag) → is_on u k r ≡ true
    → is_on user message r ≡ false
apart user message u k other r h = ground (arith, other, h)

module _ (s : Store) where
  created_own :
      (ws user : ℕ) (m : Message) (tags : List String) (t : s.Table UserTag)
      → tags_on user m.id (s.rows (create_tags s ws user m tags t))
        ≡ tags_on user m.id (s.rows t) ++ tags
  unfolding create_tags
  created_own ws user m [] t = sym (append-nil _)
  created_own ws user m (tag ∷ tags) t =
      created_own ws user m tags (s.create (tag_row ws user m tag) t)
      ∙ rw (s.rows-create, filter-append, own_key user m.id, map-append, append_assoc) refl

  created_other :
      (ws user u k : ℕ) (m : Message) (tags : List String) (t : s.Table UserTag)
      → (user == u && m.id == k) ≡ false
      → tags_on u k (s.rows (create_tags s ws user m tags t)) ≡ tags_on u k (s.rows t)
  unfolding create_tags
  created_other ws user u k m [] t other = refl
  created_other ws user u k m (tag ∷ tags) t other =
      created_other ws user u k m tags (s.create (tag_row ws user m tag) t) other
      ∙ rw (s.rows-create, filter-append, other, append-nil) refl

  -- A call of `setMessageTagsForUser` that returns leaves on the message exactly the caller's normalized tags, in order: at most ten, none
  -- empty and none twice; the tags of every other user or message stay.
  pub set_tags_replace :
      (o : TextOps) (db db' : TagDb s) (ws user message : ℕ) (tags : List String)
      (listed : List UserTag)
      → set_message_tags s o db ws user message tags ≡ ok (listed, db')
      → (tags_on user message (s.rows db'.tags) ≡ normalize_tags o tags)
        × (length (normalize_tags o tags) ≤ 10)
        × IsFilled (normalize_tags o tags)
        × IsDistinct [] (normalize_tags o tags)
        × ((u k : ℕ)
            → (user == u && message == k) ≡ false
            → tags_on u k (s.rows db'.tags) ≡ tags_on u k (s.rows db.tags))
  unfolding set_message_tags
  set_tags_replace o db db' ws user message tags listed e =
      elim (Option-cases
        (s.find_first (λ (m : Message). m.id == message && m.workspace_id == ws) db.messages)) [
          | inl gone ↦ absurd (cc (rw gone at e))
          | inr (m, found) ↦
              let (fits, listed) =
                subst
                  (Finds (λ (m : Message). m.id == message && m.workspace_id == ws)
                    (s.rows db.messages))
                  found (s.find_first-Finds _ db.messages) in
              let this : m.id ≡ message = (==_iff _ _).0 (ground (arith, fits)) in
              let after : create_tags s ws user m (normalize_tags o tags)
                    (s.delete_many (is_on user message) db.tags)
                  ≡ db'.tags =
                ap (λ (x : List UserTag × TagDb s). x.1.tags) (ok_injective (rw found at e)) in
              let (few, filled, different) = normalized o tags in
              (
                subst (λ t. tags_on user message (s.rows t) ≡ normalize_tags o tags) after
                    (subst
                      (λ k.
                        tags_on user k (
                          s.rows (
                            create_tags s ws user m (normalize_tags o tags)
                              (s.delete_many (is_on user message) db.tags)))
                        ≡ normalize_tags o tags)
                      this
                      (created_own ws user m (normalize_tags o tags) _
                        ∙ rw (s.rows-delete_many, this, filter_gone) refl)),
                few,
                filled,
                different,
                λ u k other.
                    subst (λ t. tags_on u k (s.rows t) ≡ tags_on u k (s.rows db.tags)) after
                      (created_other ws user u k m (normalize_tags o tags) _ (rw this other)
                        ∙ rw
                            (
                              s.rows-delete_many,
                              filter_apart (is_on u k) (is_on user message) (s.rows db.tags)
                                  (apart user message u k other),
                            )
                            refl),
              )
        ]
