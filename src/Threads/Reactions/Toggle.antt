-- ===== src/Threads/Reactions/Toggle.antt =====
-- The table of reactions against its specification: a function from users and messages to an emoji.
use coparentes_backend.Common.{
  own_key, ℕ, ◌≤◌, ◌≡◌, refl, sym, ap, subst, inl, inr, true, false, not, ◌&&◌, Option, none, some,
  String, str_eq, List, count, ◌==◌, ==_iff, Bool-cases, Option-cases, if◌then◌else◌, ok,
  ok_injective, arith,
}
use coparentes_backend.Common.Store.{Store, Finds, find}
use coparentes_backend.Common.Rows.Unique.{Finds-find}
use coparentes_backend.Common.Rows.Views.{
  find-filter_same, find-filter_other, count-filter-le, find-upsert_same, find-upsert_other,
  count-upsert_same, count-upsert_other,
}
use coparentes_backend.Threads.{Message}
use coparentes_backend.Threads.Reactions.{
  Reaction, ReactionDb, next_emoji, is_allowed, is_of, clears, set_emoji, write_reaction,
  set_message_reaction,
}

-- A user has at most one reaction to a message.
abbrev pub IsSingle : List Reaction → Type 0
IsSingle rs = (user message : ℕ) → count (is_of user message) rs ≤ 1

abbrev pub emoji_of : Option Reaction → Option String
emoji_of none = none
emoji_of (some r) = some r.emoji

abbrev pub shown : List Reaction → ℕ → ℕ → Option String
shown rs user message = emoji_of (find (is_of user message) rs)

-- What a tap does: no emoji, or the one that is there, clears; another one takes its place.
abbrev pub tap : Option String → Option String → Option String
tap old none = none
tap none (some e) = some e
tap (some d) (some e) = if str_eq d e then none else some e

apart :
    (user message user' message' : ℕ)
    → (user == user' && message == message') ≡ false
    → (r : Reaction) → is_of user' message' r ≡ true
    → is_of user message r ≡ false
apart user message user' message' other r h = ground (arith, other, h)

module _ (s : Store) where
  abbrev row : ℕ → ℕ → Message → String → Reaction
  row ws user m e = record {
    workspace_id = ws;
    thread_id = m.thread_id;
    message_id = m.id;
    user_id = user;
    emoji = e;
  }

  written-IsSingle :
      (t : s.Table Reaction) (ws user : ℕ) (m : Message) (e : Option String)
      → IsSingle (s.rows t)
      → IsSingle (s.rows (write_reaction s t ws user m e))
  unfolding write_reaction
  written-IsSingle t ws user m none one u k = rw s.rows-delete_many (
      omega (arith, one u k, count-filter-le (is_of u k) (λ r. not (is_of user m.id r)) (s.rows t)))
  written-IsSingle t ws user m (some e) one u k =
      elim (Bool-cases (clears (s.find_first (is_of user m.id) t) (some e))) [
        | inl clear ↦
            rw (clear, s.rows-delete_many)
              (omega (
                arith,
                one u k,
                count-filter-le (is_of u k) (λ r. not (is_of user m.id r)) (s.rows t),
              ))
        | inr write ↦
            rw (write, s.rows-upsert)
              elim (Bool-cases (user == u && m.id == k)) [
                | inr other ↦
                    rw
                      (count-upsert_other (is_of u k) (is_of user m.id) (set_emoji e)
                        (row ws user m e) (s.rows t) (λ r. refl) other)
                      (one u k)
                | inl same ↦
                    let mine : user ≡ u = (==_iff _ _).0 (ground (arith, same)) in
                    let this : m.id ≡ k = (==_iff _ _).0 (ground (arith, same)) in
                    rw (sym mine, sym this)
                      (count-upsert_same (is_of user m.id) (set_emoji e) (row ws user m e)
                        (s.rows t) (λ r. refl) (one user m.id))
              ]
      ]

  written_own :
      (t : s.Table Reaction) (ws user : ℕ) (m : Message) (e : Option String)
      → IsSingle (s.rows t)
      → shown (s.rows (write_reaction s t ws user m e)) user m.id
        ≡ tap (shown (s.rows t) user m.id) e
  unfolding write_reaction
  written_own t ws user m none one = rw (s.rows-delete_many, find-filter_same) refl
  written_own t ws user m (some e) one =
      let here : s.find_first (is_of user m.id) t ≡ find (is_of user m.id) (s.rows t) =
        Finds-find (is_of user m.id) (s.rows t) _ (one user m.id) (s.find_first-Finds _ t) in
      let self : is_of user m.id (row ws user m e) ≡ true = own_key user m.id in
      rw here elim (Option-cases (find (is_of user m.id) (s.rows t))) [
        | inl fresh ↦
            rw
              (
                fresh,
                s.rows-upsert,
                find-upsert_same (is_of user m.id) (set_emoji e) (row ws user m e) (s.rows t)
                    (λ r. refl) self,
                fresh,
              )
              refl
        | inr (r, old) ↦ elim (Bool-cases (str_eq r.emoji e)) [
          | inl again ↦ rw (old, again, s.rows-delete_many, find-filter_same) refl
          | inr new ↦
              rw
                (
                  old,
                  new,
                  s.rows-upsert,
                  find-upsert_same (is_of user m.id) (set_emoji e) (row ws user m e) (s.rows t)
                      (λ r. refl) self,
                  old,
                )
                refl
        ]
      ]

  written_other :
      (t : s.Table Reaction) (ws user u k : ℕ) (m : Message) (e : Option String)
      → (user == u && m.id == k) ≡ false
      → shown (s.rows (write_reaction s t ws user m e)) u k ≡ shown (s.rows t) u k
  unfolding write_reaction
  written_other t ws user u k m none other =
      rw
        (
          s.rows-delete_many,
          find-filter_other (is_of u k) (is_of user m.id) (s.rows t) (apart user m.id u k other),
        )
        refl
  written_other t ws user u k m (some e) other =
      elim (Bool-cases (clears (s.find_first (is_of user m.id) t) (some e))) [
        | inl clear ↦
            rw
              (
                clear,
                s.rows-delete_many,
                find-filter_other (is_of u k) (is_of user m.id) (s.rows t)
                    (apart user m.id u k other),
              )
              refl
        | inr write ↦
            rw
              (
                write,
                s.rows-upsert,
                find-upsert_other (is_of u k) (is_of user m.id) (set_emoji e) (row ws user m e)
                    (s.rows t) (λ r. refl) (apart user m.id u k other) other,
              )
              refl
      ]

  -- What a call that returns leaves: one reaction of each user to each message, the caller's by the tap, all others as before.
  pub record Taps (t t' : s.Table Reaction) (user message : ℕ) (emoji : Option String)
      : Type 0 where
    pub single : IsSingle (s.rows t')
    pub own :
        shown (s.rows t') user message ≡ tap (shown (s.rows t) user message) (next_emoji emoji)
    pub others :
        (u k : ℕ)
        → (user == u && message == k) ≡ false
        → shown (s.rows t') u k ≡ shown (s.rows t) u k

  -- A call of `setMessageReactionForUser` that returns does to the caller's emoji on the message what a tap does: none, or the one that is there, clears it, and
  -- another one takes its place; the emoji of every other user or message stays. Each user still has at most one reaction to a
  -- message, where this held before.
  pub set_reaction-Taps :
      (db db' : ReactionDb s) (ws user message : ℕ) (emoji : Option String) (listed : List Reaction)
      → IsSingle (s.rows db.reactions)
      → set_message_reaction s db ws user message emoji ≡ ok (listed, db')
      → Taps db.reactions db'.reactions user message emoji
  unfolding set_message_reaction
  set_reaction-Taps db db' ws user message emoji listed one e =
      elim (Option-cases
        (s.find_first (λ (m : Message). m.id == message && m.workspace_id == ws) db.messages)) [
          | inl gone ↦ absurd (cc (rw gone at e))
          | inr (m, found) ↦ elim (Bool-cases (is_allowed (next_emoji emoji))) [
            | inr bad ↦ absurd (cc (rw (found, bad) at e))
            | inl fine ↦
                let (fits, listed) =
                  subst
                    (Finds (λ (m : Message). m.id == message && m.workspace_id == ws)
                      (s.rows db.messages))
                    found (s.find_first-Finds _ db.messages) in
                let this : m.id ≡ message = (==_iff _ _).0 (ground (arith, fits)) in
                let after : write_reaction s db.reactions ws user m (next_emoji emoji)
                    ≡ db'.reactions =
                  ap (λ (x : List Reaction × ReactionDb s). x.1.reactions)
                    (ok_injective (rw (found, fine) at e)) in
                rw (sym after) (record {
                  single = written-IsSingle db.reactions ws user m (next_emoji emoji) one;
                  own = rw (sym this) (written_own db.reactions ws user m (next_emoji emoji) one);
                  others = λ u k other.
                      written_other db.reactions ws user u k m (next_emoji emoji) (rw this other);
                })
          ]
        ]
