-- ===== src/Threads/Channels.antt =====
-- The one thread of a category, and what a child sees.
use coparentes_backend.Common.{
  ℕ, ◌≤◌, ◌≡◌, refl, sym, ap, subst, inl, inr, Bool, true, ◌&&◌, Option, none, some, String, str_eq,
  eq_iff, List, [], ◌∷◌, map, filter, any, All, ◌==◌, ==_iff, count, Bool-cases, Option-cases,
  if◌then◌else◌, Result-cases, ok, ok_injective, arith,
}
use coparentes_backend.Common.Store.{Store, Finds}
use coparentes_backend.Common.Rows.Unique.{count_zero, count_mem, count-append_one}
use coparentes_backend.Custody.Pattern.{child}
use coparentes_backend.Threads.{
  Thread, Message, ThreadDb, Member, GivenKey, parents, thread_where_for_role, category_channels,
  is_system_category, is_family,
}
use coparentes_backend.Threads.Rooms.{
  is_channel, new_thread, check_given_keys, get_or_create_category_thread, category_thread_found,
  list_threads, get_thread_by_id, find_thread, with_messages,
}

new_thread-is_channel :
    (s : Store) (id ws by now : ℕ) (category : String) (system : Bool)
    → is_channel s ws category parents
        (new_thread s id ws category category none by parents system now)
      ≡ true
new_thread-is_channel s id ws by now category system = rw (eq_refl, (==_iff ws ws).1 refl) refl
  where
    eq_refl : str_eq category category ≡ true
    eq_refl = (eq_iff category category).1 refl

module _ (s : Store) where
  -- After a call of `getOrCreateCategoryThread` that does not throw there is exactly one thread of the category in the
  -- workspace, where there was at most one before.
  pub category_thread_once :
      (db db' : ThreadDb s) (ws : ℕ) (by : Member) (category : String) (keys : List GivenKey)
      (id now : ℕ) (v : Option (Thread × List Message))
      → count (is_channel s ws category parents) (s.rows db.threads) ≤ 1
      → get_or_create_category_thread s db ws by category keys id now ≡ ok (v, db')
      → count (is_channel s ws category parents) (s.rows db'.threads) ≡ 1
  unfolding get_or_create_category_thread category_thread_found
  category_thread_once db db' ws by category keys id now v one e =
      let p = is_channel s ws category parents in
      elim (Bool-cases (any (str_eq category) category_channels)) [
        | inr other ↦ absurd (cc (rw other at e))
        | inl known ↦
            elim (Option-cases (s.find_first (is_channel s ws category parents) db.threads)) [
              | inr (t, found) ↦
                  let (fits, m) =
                    subst (Finds p (s.rows db.threads)) found (s.find_first-Finds p db.threads) in
                  let hit = count_mem p (s.rows db.threads) m fits in
                  rw
                    (sym (
                      ap (λ (x : Option (Thread × List Message) × ThreadDb s). x.1.threads)
                        (ok_injective (rw (known, found) at e))))
                    (omega (arith, one, hit))
              | inl free ↦
                  let nobody =
                    count_zero p (s.rows db.threads) (
                      subst (Finds p (s.rows db.threads)) free (s.find_first-Finds p db.threads)) in
                  elim (Result-cases
                    (check_given_keys s db ws (if is_system_category category then [] else keys))) [
                      | inl (c, refused) ↦ absurd (cc (rw (known, free, refused) at e))
                      | inr (_, checked) ↦
                          rw
                            (
                              sym (
                                  ap
                                    (λ (x : Option (Thread × List Message) × ThreadDb s).
                                      x.1.threads)
                                    (ok_injective (rw (known, free, checked) at e))),
                              s.rows-create,
                              count-append_one p (s.rows db.threads),
                              nobody,
                              new_thread-is_channel s id ws by.id now category
                                  (is_system_category category),
                            )
                            refl
                    ]
            ]
      ]

  -- A child's threads are family threads of the workspace.
  abbrev pub IsForChild : ℕ → Thread × List Message → Type 0
  IsForChild ws x = (is_family x.0.audience ≡ true) × (x.0.workspace_id ≡ ws)

  for_child :
      (db : ThreadDb s) (ws : ℕ) (ts : List Thread)
      → All (IsForChild ws) (
          map
            (with_messages s db)
            (filter (λ t. t.workspace_id == ws && thread_where_for_role child t) ts))
  for_child db ws [] = tt
  for_child db ws (t ∷ ts) =
      elim (Bool-cases (t.workspace_id == ws && thread_where_for_role child t)) [
        | inl e ↦ rw e ((ground (arith, e), (==_iff _ _).0 (ground (arith, e))), for_child db ws ts)
        | inr e ↦ rw e (for_child db ws ts)
      ]

  -- Every thread that `listThreads` gives to a child, and every one that `getThreadById` gives to a child, is a family thread of
  -- the workspace that was asked for.
  pub child_sees_family :
      (db : ThreadDb s) (ws : ℕ)
      → All (IsForChild ws) (list_threads s db ws child)
        × ((id : ℕ) (v : Thread × List Message)
            → get_thread_by_id s db ws id child ≡ some v
            → IsForChild ws v)
  unfolding list_threads get_thread_by_id
  child_sees_family db ws = (
    rw s.find_many-rows (for_child db ws (s.rows db.threads)),
    λ id v e. elim (Option-cases (find_thread s db ws id)) [
      | inl gone ↦ absurd (cc (rw gone at e))
      | inr (t, found) ↦ elim (Bool-cases (is_family t.audience)) [
        | inr parents_only ↦ absurd (cc (rw (found, parents_only) at e))
        | inl fam ↦
            let (fits, m) =
              subst (Finds (λ t. t.id == id && t.workspace_id == ws) (s.rows db.threads)) found
                (s.find_first-Finds _ db.threads) in
            let same : with_messages s db t ≡ v = cc (rw (found, fam) at e) in
            subst (IsForChild ws) same (fam, (==_iff _ _).0 (ground (arith, fits)))
      ]
    ],
  )
