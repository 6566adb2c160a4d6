-- ===== src/Calendar/Events.antt =====
-- Calendar events (src/services/calendar.js). `serializeCalendarEvent` opens the texts; a date of deletion marks
-- a deleted event, whose row stays.
use coparentes_backend.Common.{
  ℕ, Bool, not, ◌&&◌, Option, none, some, String, List, map, ◌==◌, leb, is_some, Result, ok, err,
  throw_if, ◌>>◌, child_not_found, event_not_found, forbidden,
}
use coparentes_backend.Common.Store.{Store}
use coparentes_backend.Crypto.{
  Cipher, KeyName, key_health, key_general, encrypt_optional, decrypt_optional_safe,
}
use coparentes_backend.Finances.Expenses.{Child}

-- `CalendarEventType`
pub data EventType : Type 0 where
  school medical activity handover holiday other : EventType

-- `calendarEventKey`
abbrev pub calendar_event_key : EventType → KeyName
calendar_event_key medical = key_health
calendar_event_key _ = key_general

pub record CalendarEvent : Type 0 where
  pub id : ℕ
  pub workspace_id : ℕ
  pub created_by_id : ℕ
  pub title : Option String
  pub description : Option String
  pub start_date : ℕ
  pub end_date : Option ℕ
  pub event_type : EventType
  pub child_id : Option ℕ
  pub location : Option String
  pub deleted_at : Option ℕ

-- What a request gives of an event.
pub record EventInput : Type 0 where
  pub title : String
  pub description : Option String
  pub start_date : ℕ
  pub end_date : Option ℕ
  pub event_type : EventType
  pub child_id : Option ℕ
  pub location : Option String

pub record EventDb (s : Store) : Type 0 where
  pub children : s.Table Child
  pub events : s.Table CalendarEvent

-- The fields that both `create` and `update` write.
abbrev pub write_event : Cipher → EventInput → CalendarEvent → CalendarEvent
write_event c x e = record e {
  title = encrypt_optional c (some x.title) (calendar_event_key x.event_type);
  description = encrypt_optional c x.description (calendar_event_key x.event_type);
  start_date = x.start_date;
  end_date = x.end_date;
  event_type = x.event_type;
  child_id = x.child_id;
  location = x.location;
}

abbrev pub new_event : Cipher → ℕ → ℕ → ℕ → EventInput → CalendarEvent
new_event c id ws created_by_id x = record {
  id = id;
  workspace_id = ws;
  created_by_id = created_by_id;
  title = encrypt_optional c (some x.title) (calendar_event_key x.event_type);
  description = encrypt_optional c x.description (calendar_event_key x.event_type);
  start_date = x.start_date;
  end_date = x.end_date;
  event_type = x.event_type;
  child_id = x.child_id;
  location = x.location;
  deleted_at = none;
}

-- `serializeCalendarEvent`: the row with its texts opened.
abbrev pub serialize_calendar_event : Cipher → CalendarEvent → CalendarEvent
serialize_calendar_event c e = record e {
  title = decrypt_optional_safe c e.title (some "");
  description = decrypt_optional_safe c e.description none;
}

-- `where` of the events in `listCalendarExportItems`.
abbrev pub overlaps : ℕ → ℕ → CalendarEvent → Bool
overlaps from to e =
    leb e.start_date to
    && elim e.end_date [ some last ↦ leb from last | none ↦ leb from e.start_date ]

module _ (s : Store) (c : Cipher) where
  -- `if (childId)`: the child is one of the workspace.
  unfoldable pub check_event_child : EventDb s → ℕ → Option ℕ → Result (Unit {0})
  check_event_child db ws none = ok tt
  check_event_child db ws (some id) =
      throw_if
        (not (is_some (s.find_first (λ ch. ch.id == id && ch.workspace_id == ws) db.children)))
        child_not_found

  -- `createCalendarEvent`
  unfoldable pub create_calendar_event :
      EventDb s → ℕ → ℕ → ℕ → EventInput → Result (CalendarEvent × EventDb s)
  create_calendar_event db id ws created_by_id x = do
    check_event_child db ws x.child_id
    let row = new_event c id ws created_by_id x
    ok (serialize_calendar_event c row, record db { events = s.create row db.events })

  -- `updateCalendarEvent` behind its search.
  unfoldable pub update_event_found :
      EventDb s → ℕ → ℕ → EventInput → Option CalendarEvent → Result (CalendarEvent × EventDb s)
  update_event_found db ws event_id x none = err event_not_found
  update_event_found db ws event_id x (some e) = do
    check_event_child db ws x.child_id
    ok (
      serialize_calendar_event c (write_event c x e),
      record db { events = s.update_many (λ r. r.id == event_id) (write_event c x) db.events },
    )

  -- `updateCalendarEvent`
  unfoldable pub update_calendar_event :
      EventDb s → ℕ → ℕ → EventInput → Result (CalendarEvent × EventDb s)
  unfolding update_event_found
  update_calendar_event db ws event_id x =
      update_event_found db ws event_id x
        (s.find_first (λ e. e.id == event_id && e.workspace_id == ws) db.events)

  abbrev pub delete_at : ℕ → CalendarEvent → CalendarEvent
  delete_at now e = record e { deleted_at = some now }

  -- `deleteCalendarEvent` behind its search.
  unfoldable pub delete_event_found :
      EventDb s → ℕ → ℕ → ℕ → Option CalendarEvent → Result (CalendarEvent × EventDb s)
  delete_event_found db now event_id requester_id none = err event_not_found
  delete_event_found db now event_id requester_id (some e) = do
    throw_if (is_some e.deleted_at) event_not_found
    throw_if (not (e.created_by_id == requester_id)) forbidden
    ok (
      serialize_calendar_event c (delete_at now e),
      record db { events = s.update_many (λ r. r.id == event_id) (delete_at now) db.events },
    )

  -- `deleteCalendarEvent`
  unfoldable pub delete_calendar_event :
      EventDb s → ℕ → ℕ → ℕ → ℕ → Result (CalendarEvent × EventDb s)
  unfolding delete_event_found
  delete_calendar_event db now ws event_id requester_id =
      delete_event_found db now event_id requester_id
        (s.find_first (λ e. e.id == event_id && e.workspace_id == ws) db.events)

  -- The events of `listCalendarExportItems`, without their order.
  unfoldable pub export_events : EventDb s → ℕ → ℕ → ℕ → List CalendarEvent
  export_events db ws from to = map (serialize_calendar_event c) (
      s.find_many (λ e. e.workspace_id == ws && (not (is_some e.deleted_at) && overlaps from to e))
        db.events)
