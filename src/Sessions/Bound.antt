-- ===== src/Sessions/Bound.antt =====
-- How many sessions a user keeps.
use coparentes_backend.Common.{
  ℕ, zero, suc, ◌+◌, ◌-◌, ◌≤◌, ◌<◌, ◌≡◌, refl, inl, inr, Bool, true, not, List, [], ◌∷◌, ◌++◌, map,
  arith, filter, length, length-filter-le, All, All-map, take, String, mem_id, leb, Bool-cases,
}
use coparentes_backend.Common.Store.{Store}
use coparentes_backend.Sessions.{
  Session, of_user, make_room, create_session_for_user, max_sessions_per_user,
}

abbrev outside : List ℕ → Session → Bool
outside ids x = not (mem_id x.id ids)

-- Filters commute, as far as lengths go.
filters_swap :
    (p q : Session → Bool) (xs : List Session) → filter p (filter q xs) ≡ filter q (filter p xs)
filters_swap p q [] = refl
filters_swap p q (x ∷ xs) = ground (arith, filters_swap p q xs)

-- Whatever other ids go, those of the first `k` sessions take `k` sessions away.
removed_first :
    (k : ℕ) (xs : List Session) (ids : List ℕ)
    → All (λ x. mem_id x.id ids ≡ true) (take k xs)
    → length (filter (outside ids) xs) ≤ length xs - k
removed_first zero xs ids h = omega (arith, length-filter-le (outside ids) xs)
removed_first (suc k) [] ids h = omega arith
removed_first (suc k) (x ∷ xs) ids h = rw h.0 (omega (arith, removed_first k xs ids h.1))

own_ids : (xs : List Session) → All (λ x. mem_id x.id (map (λ e. e.id) xs) ≡ true) xs
own_ids [] = tt
own_ids (x ∷ xs) = (
  ground arith,
  All-map _ (λ y. mem_id y.id (x.id ∷ map (λ e. e.id) xs) ≡ true) (λ y h. ground (arith, h)) xs
      (own_ids xs),
)

abbrev drop_rows : ℕ → ℕ → List Session → List Session
drop_rows user k xs = filter (outside (map (λ e. e.id) (take k (filter (of_user user) xs)))) xs

room_left :
    (user k : ℕ) (xs : List Session)
    → length (filter (of_user user) (drop_rows user k xs)) ≤ length (filter (of_user user) xs) - k
room_left user k xs =
    let own = filter (of_user user) xs in
    let ids = map (λ e. e.id) (take k own) in
    rw (filters_swap (of_user user) (outside ids) xs)
      (removed_first k own ids (own_ids (take k own)))

module _ (s : Store) where
  make_room_lem :
      (t : s.Table Session) (user : ℕ)
      → length (filter (of_user user) (s.rows (make_room s user t))) < max_sessions_per_user
  unfolding make_room
  make_room_lem t user =
      elim (Bool-cases (leb max_sessions_per_user (length (filter (of_user user) (s.rows t))))) [
        | inl full ↦
            let count = length (filter (of_user user) (s.rows t)) in
            let many : max_sessions_per_user ≤ count = ground (arith, full) in
            rw (s.find_many-rows, full, s.rows-delete_many)
              (omega (arith, room_left user (count - max_sessions_per_user + 1) (s.rows t), many))
        | inr free ↦ rw (s.find_many-rows, free) (ground (arith, free))
      ]

  length-filter_added :
      (p : Session → Bool) (xs : List Session) (x : Session)
      → length (filter p (xs ++ x ∷ [])) ≤ length (filter p xs) + 1
  length-filter_added p [] x = ground arith
  length-filter_added p (y ∷ xs) x = ground (arith, length-filter_added p xs x)

  -- After `createSessionForUser` the user has at most five sessions, whatever the number was before.
  pub create_session_le_max :
      (t : s.Table Session) (user id : ℕ) (token_hash : String) (expires_at : ℕ)
      → length (
          filter
            (of_user user)
            (s.rows (create_session_for_user s t user id token_hash expires_at)))
        ≤ max_sessions_per_user
  unfolding create_session_for_user
  create_session_le_max t user id token_hash expires_at = rw s.rows-create (
      omega (
        arith,
        make_room_lem t user,
        length-filter_added (of_user user) (s.rows (make_room s user t)) _,
      ))
