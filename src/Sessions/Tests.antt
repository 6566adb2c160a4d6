-- ===== src/Sessions/Tests.antt =====
-- Sessions kept in a list.
use coparentes_backend.Common.{ℕ, ◌≤◌, ◌≡◌, refl, none, some, List, [], ◌∷◌, filter, length, map}
use coparentes_backend.Common.Store.{list_store}
use coparentes_backend.Custody.Pattern.{parent_a, observer}
use coparentes_backend.Sessions.{
  Session, User, role_not_supported, max_sessions_per_user, of_user, make_room,
  create_session_for_user, require_auth, check_session, find_session, admit_user, delete_session,
}
use coparentes_backend.Sessions.Bound.{create_session_le_max}
use coparentes_backend.Sessions.Auth.{Admits, require_auth-Admits}

abbrev session : ℕ → Session
session id = record { id = id; token_hash = "h"; user_id = 2; expires_at = 9000 }

abbrev five : List Session
five = session 1 ∷ session 2 ∷ session 3 ∷ session 4 ∷ session 5 ∷ []

abbrev mother : User
mother = record { id = 2; workspace_id = some 1; deleted_at = none; role = parent_a }

abbrev watcher : User
watcher = record { id = 2; workspace_id = some 1; deleted_at = none; role = observer }

oldest_goes :
    map (λ x. x.id) (create_session_for_user list_store five 2 6 "new" 9000)
    ≡ 2 ∷ 3 ∷ 4 ∷ 5 ∷ 6 ∷ []
unfolding create_session_for_user make_room
oldest_goes = refl

watcher_refused :
    require_auth list_store (watcher ∷ []) (session 1 ∷ []) 1000 (some "h")
    ≡ (role_not_supported, [])
unfolding require_auth delete_session
watcher_refused = refl

create_session_le_max_example :
    length (filter (of_user 2) (create_session_for_user list_store five 2 6 "new" 9000))
    ≤ max_sessions_per_user
create_session_le_max_example = create_session_le_max list_store five 2 6 "new" 9000

require_auth-Admits_example : Admits (mother ∷ []) five 1000 "h" mother
unfolding require_auth check_session find_session admit_user
require_auth-Admits_example = require_auth-Admits list_store (mother ∷ []) five 1000 "h" mother refl
