-- ===== src/Exports/Scope.antt =====
-- What the message threads of an export hold.
use mathlib.Core.List.{Memᴰ}
use coparentes_backend.Common.{
  ℕ, ◌≤◌, ◌<◌, ◌≡◌, refl, sym, subst, inl, inr, Bool, true, ◌&&◌, Option, none, some, List, [], ◌∷◌,
  map, filter, length, All, ◌==◌, ==_iff, Bool-cases, Option-cases, arith,
}
use coparentes_backend.Common.Store.{Store, Finds}
use coparentes_backend.Common.Rows.{mem-map, length_pos, mem-filter_of}
use coparentes_backend.Custody.Pattern.{parent_a}
use coparentes_backend.Threads.{Thread, Message, ThreadDb, thread_where_for_role}
use coparentes_backend.Threads.Rooms.{list_threads, with_messages, find_thread}
use coparentes_backend.Exports.{
  is_within, keep_within, has_messages, filter_threads_by_date_range, load_message_threads,
}

-- A message of the dates.
abbrev pub IsWithin : ℕ → ℕ → Message → Type 0
IsWithin from to m = (from ≤ m.sent_at) × (m.sent_at ≤ to)

-- A thread of the workspace, with some of its messages, all of the dates.
pub record IsExported (ws from to : ℕ) (v : Thread × List Message) : Type 0 where
  pub place : v.0.workspace_id ≡ ws
  pub filled : 0 < length v.1
  pub within : All (λ m. IsWithin from to m × (m.thread_id ≡ v.0.id)) v.1

abbrev IsLoaded : ℕ → Thread × List Message → Type 0
IsLoaded ws (t, ms) = (t.workspace_id ≡ ws) × All (λ m. m.thread_id ≡ t.id) ms

IsWithin-kept :
    (from to id : ℕ) (ms : List Message)
    → All (λ m. m.thread_id ≡ id) ms
    → All (λ m. IsWithin from to m × (m.thread_id ≡ id)) (filter (is_within from to) ms)
IsWithin-kept from to id [] h = tt
IsWithin-kept from to id (m ∷ ms) h = elim (Bool-cases (is_within from to m)) [
  | inl e ↦ rw e (((ground (arith, e), ground (arith, e)), h.0), IsWithin-kept from to id ms h.1)
  | inr e ↦ rw e (IsWithin-kept from to id ms h.1)
]

filtered-IsExported :
    (ws from to : ℕ) (vs : List (Thread × List Message))
    → All (IsLoaded ws) vs
    → All (IsExported ws from to) (filter_threads_by_date_range vs from to)
unfolding filter_threads_by_date_range
filtered-IsExported ws from to [] h = tt
filtered-IsExported ws from to ((t, ms) ∷ vs) h =
    elim (Bool-cases (has_messages (keep_within from to (t, ms)))) [
      | inr e ↦ rw e (filtered-IsExported ws from to vs h.1)
      | inl e ↦
          let (place, own) = h.0 in
          let kept = IsWithin-kept from to t.id ms own in
          rw e (
            record { place = place; filled = ground (arith, e); within = kept },
            filtered-IsExported ws from to vs h.1,
          )
    ]

own_messages :
    (id : ℕ) (ms : List Message) → All (λ m. m.thread_id ≡ id) (filter (λ m. m.thread_id == id) ms)
own_messages id [] = tt
own_messages id (m ∷ ms) = elim (Bool-cases (m.thread_id == id)) [
  | inl e ↦ rw e ((==_iff _ _).0 e, own_messages id ms)
  | inr e ↦ rw e (own_messages id ms)
]

-- A message of the dates stays, with its thread.
kept_there :
    (from to : ℕ) (vs : List (Thread × List Message)) {v : Thread × List Message} {m : Message}
    → Memᴰ v vs
    → Memᴰ m v.1
    → IsWithin from to m
    → (w : Thread × List Message) × Memᴰ w (filter_threads_by_date_range vs from to) × Memᴰ m w.1
unfolding filter_threads_by_date_range
kept_there from to vs {v} {m} listed here (after, before) =
    let stays = mem-filter_of (is_within from to) v.1 (ground (arith, after, before)) here in
    let full : has_messages (keep_within from to v) ≡ true = ground (arith, length_pos _ stays) in
    (
      keep_within from to v,
      mem-filter_of has_messages _ full (mem-map (keep_within from to) vs listed),
      stays,
    )

module _ (s : Store) where
  with_messages-IsLoaded :
      (db : ThreadDb s) (t : Thread) (ws : ℕ)
      → t.workspace_id ≡ ws
      → IsLoaded ws (with_messages s db t)
  with_messages-IsLoaded db t ws e =
      (e, rw s.find_many-rows (own_messages t.id (s.rows db.messages)))

  listed-IsLoaded :
      (db : ThreadDb s) (ws : ℕ) (ts : List Thread)
      → All (IsLoaded ws) (
          map
            (with_messages s db)
            (filter (λ t. t.workspace_id == ws && thread_where_for_role parent_a t) ts))
  listed-IsLoaded db ws [] = tt
  listed-IsLoaded db ws (t ∷ ts) =
      elim (Bool-cases (t.workspace_id == ws && thread_where_for_role parent_a t)) [
        | inl e ↦ rw e (
          with_messages-IsLoaded db t ws ((==_iff _ _).0 (ground (arith, e))),
          listed-IsLoaded db ws ts,
        )
        | inr e ↦ rw e (listed-IsLoaded db ws ts)
      ]

  load_message_threads-IsLoaded :
      (db : ThreadDb s) (ws : ℕ) (wanted : Option ℕ)
      → All (IsLoaded ws) (load_message_threads s db ws wanted)
  unfolding load_message_threads
  load_message_threads-IsLoaded db ws none =
      rw s.find_many-rows (listed-IsLoaded db ws (s.rows db.threads))
  load_message_threads-IsLoaded db ws (some id) = elim (Option-cases (find_thread s db ws id)) [
    | inl gone ↦ rw gone tt
    | inr (t, found) ↦
        let (fits, m) =
          subst (Finds (λ (t : Thread). t.id == id && t.workspace_id == ws) (s.rows db.threads))
            found (s.find_first-Finds _ db.threads) in
        rw found (with_messages-IsLoaded db t ws ((==_iff _ _).0 (ground (arith, fits))), tt)
  ]

  -- The message threads of an export are of its workspace, none is empty, and each holds messages of the thread from the export's dates only;
  -- an export of all threads leaves out no message of these dates in a thread of the workspace.
  pub load_message_threads-IsExported :
      (db : ThreadDb s) (ws from to : ℕ) (wanted : Option ℕ)
      → All
          (IsExported ws from to)
          (filter_threads_by_date_range (load_message_threads s db ws wanted) from to)
        × ((t : Thread) (m : Message)
            → Memᴰ t (s.rows db.threads)
            → t.workspace_id ≡ ws
            → Memᴰ m (s.rows db.messages)
            → m.thread_id ≡ t.id
            → IsWithin from to m
            → (v : Thread × List Message) × Memᴰ v
                (filter_threads_by_date_range (load_message_threads s db ws none) from to)
              × Memᴰ m v.1)
  unfolding load_message_threads list_threads
  load_message_threads-IsExported db ws from to wanted = (
    filtered-IsExported ws from to _ (load_message_threads-IsLoaded db ws wanted),
    λ t m listed place there own dates.
        let of_ws : Thread → Bool = λ k. k.workspace_id == ws && thread_where_for_role parent_a k in
        let ours : (t.workspace_id == ws && thread_where_for_role parent_a t) ≡ true =
          rw ((==_iff _ _).1 place) refl in
        let loaded : Memᴰ (with_messages s db t) (list_threads s db ws parent_a) =
          subst (λ ts. Memᴰ (with_messages s db t) (map (with_messages s db) ts))
            (sym (s.find_many-rows of_ws db.threads))
            (mem-map (with_messages s db) _
              (mem-filter_of of_ws (s.rows db.threads) ours listed)) in
        let mine : Memᴰ m (with_messages s db t).1 = rw s.find_many-rows (
          mem-filter_of (λ (m : Message). m.thread_id == t.id) (s.rows db.messages)
            ((==_iff _ _).1 own) there) in
        kept_there from to (list_threads s db ws parent_a) loaded mine dates,
  )
