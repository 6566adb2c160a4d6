-- ===== src/Calendar/Removal.antt =====
-- What an event is after its deletion.
use mathlib.Core.List.{Memᴰ}
use coparentes_backend.Common.{
  ℕ, ◌≤◌, ◌≡◌, refl, sym, ap, inl, inr, Bool, true, ◌&&◌, Option, none, some, arith, count, ◌==◌,
  ==_iff, is_some, Bool-cases, ok, err, event_not_found, ok_injective, ◌∙◌,
}
use coparentes_backend.Common.Store.{Store, Finds, find, update_rows}
use coparentes_backend.Common.Rows.Unique.{
  Finds-find, find-update_rows, count-update_rows, find_hit,
}
use coparentes_backend.Crypto.{Cipher}
use coparentes_backend.Calendar.Events.{
  CalendarEvent, EventDb, serialize_calendar_event, delete_at, delete_event_found,
  delete_calendar_event,
}

module _ (s : Store) (c : Cipher) where
  abbrev pub named : ℕ → ℕ → CalendarEvent → Bool
  named ws id e = e.id == id && e.workspace_id == ws

  -- What a deletion that returns found and leaves: the requester's own event, not deleted before; its rows get the time
  -- of deletion, and a second deletion by anyone finds nothing.
  pub record Removes (db db' : EventDb s) (now ws id requester : ℕ) (view : CalendarEvent)
      : Type 0 where
    pub event : CalendarEvent
    pub listed : Memᴰ event (s.rows db.events)
    pub by_creator : event.created_by_id ≡ requester
    pub was_there : event.deleted_at ≡ none
    pub answer : view ≡ serialize_calendar_event c (delete_at s c now event)
    pub written :
        s.rows db'.events ≡ update_rows (λ r. r.id == id) (delete_at s c now) (s.rows db.events)
    pub again :
        (later user : ℕ) → delete_calendar_event s c db' later ws id user ≡ err event_not_found

  no_second :
      (db db' : EventDb s) (now later ws id user : ℕ) (e : CalendarEvent)
      → count (named ws id) (s.rows db.events) ≤ 1
      → find (named ws id) (s.rows db.events) ≡ some e
      → s.rows db'.events ≡ update_rows (λ r. r.id == id) (delete_at s c now) (s.rows db.events)
      → delete_calendar_event s c db' later ws id user ≡ err event_not_found
  unfolding delete_calendar_event delete_event_found
  no_second db db' now later ws id user e one found after =
      let (hit, _) = find_hit (named ws id) (s.rows db.events) found in
      let own : (e.id == id) ≡ true = ground (arith, hit) in
      let still : count (named ws id) (s.rows db'.events) ≤ 1 =
        rw
          (
            after,
            count-update_rows (named ws id) (λ r. r.id == id) (delete_at s c now) (s.rows db.events)
                (λ r. refl),
          )
          one in
      let there : s.find_first (named ws id) db'.events ≡ some (delete_at s c now e) =
        Finds-find (named ws id) (s.rows db'.events) _ still (s.find_first-Finds _ db'.events)
        ∙ rw
            (
              after,
              find-update_rows (named ws id) (λ r. r.id == id) (delete_at s c now)
                  (s.rows db.events) (λ r. refl),
              found,
              own,
            )
            refl in
      rw there refl

  delete_found-Removes :
      (db db' : EventDb s) (now ws id requester : ℕ) (view : CalendarEvent)
      (o : Option CalendarEvent)
      → count (named ws id) (s.rows db.events) ≤ 1
      → Finds (named ws id) (s.rows db.events) o
      → delete_event_found s c db now id requester o ≡ ok (view, db')
      → Removes db db' now ws id requester view
  unfolding delete_event_found
  delete_found-Removes db db' now ws id requester view none one found h = absurd (cc (h))
  delete_found-Removes db db' now ws id requester view (some e) one found h =
      elim (Bool-cases (is_some e.deleted_at)) [
        | inl gone ↦ absurd (cc (rw gone at h))
        | inr there ↦ elim (Bool-cases (e.created_by_id == requester)) [
          | inr other ↦ absurd (cc (rw (there, other) at h))
          | inl own ↦
              let r = ok_injective (rw (there, own) at h) in
              let rows : s.rows db'.events
                  ≡ update_rows (λ r. r.id == id) (delete_at s c now) (s.rows db.events) =
                rw (sym (ap (λ t. t.1) r)) (s.rows-update_many _ _ _) in
              record {
                event = e;
                listed = found.1;
                by_creator = (==_iff _ _).0 own;
                was_there = ground (arith, there);
                answer = sym (ap (λ t. t.0) r);
                written = rows;
                again = λ later user.
                    no_second db db' now later ws id user e one
                      (sym (Finds-find (named ws id) (s.rows db.events) (some e) one found)) rows;
              }
        ]
      ]

  -- A call of `deleteCalendarEvent` that returns removed an event that its requester created and that was not deleted
  -- before: just the rows with its id get the time of deletion, the answer shows it, and every later call
  -- for the event throws `event_not_found`. At most one event has the id.
  pub delete_event-Removes :
      (db db' : EventDb s) (now ws id requester : ℕ) (view : CalendarEvent)
      → count (named ws id) (s.rows db.events) ≤ 1
      → delete_calendar_event s c db now ws id requester ≡ ok (view, db')
      → Removes db db' now ws id requester view
  unfolding delete_calendar_event
  delete_event-Removes db db' now ws id requester view one h =
      delete_found-Removes db db' now ws id requester view _ one (s.find_first-Finds _ db.events) h
