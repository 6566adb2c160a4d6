-- ===== src/Threads/Sample.antt =====
-- A small database of threads and an `AttachmentOps`.
use coparentes_backend.Common.{none, some, str_eq, [], ◌∷◌, false, if◌then◌else◌}
use coparentes_backend.Common.Store.{list_store}
use coparentes_backend.Custody.Pattern.{parent_a}
use coparentes_backend.Threads.{Thread, ThreadDb, Member, family}
use coparentes_backend.Threads.Rooms.{new_thread}
use coparentes_backend.Threads.Attachments.{Attachment, AttachmentOps, raws_of, pos}

abbrev pub room : Thread
room = new_thread list_store 5 1 "Rodzina" "Rodzina" none 2 family false 10

abbrev pub db : ThreadDb list_store
db = record { users = []; children = []; threads = room ∷ []; messages = []; keys = [] }

abbrev pub mother : Member
mother = record { id = 2; role = parent_a }

abbrev pub photo : Attachment
photo = record {
  id = "a";
  name = "x.png";
  media_type = "image/png";
  size_bytes = pos 3;
  content_base64 = "AAAA";
}

-- An `AttachmentOps` that knows one list besides the empty one.
abbrev pub toy_ops : AttachmentOps
toy_ops = record {
  trim = λ x. x;
  without_spaces = λ x. x;
  len = λ x. 4;
  padding = λ x. 0;
  decimal = λ n. "1";
  to_json = λ xs. "[photo]";
  parse = λ x. if str_eq x "[photo]" then some (raws_of (photo ∷ [])) else some [];
}
