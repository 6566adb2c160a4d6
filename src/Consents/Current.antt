-- ===== src/Consents/Current.antt =====
-- The table of consents against its specification: a function from users and types to what is granted.
use mathlib.Core.List.{append-nil}
use coparentes_backend.Common.{
  ℕ, ◌≤◌, ◌<◌, ◌≡◌, refl, inl, inr, Bool, true, false, not, ◌&&◌, Option, some, String, List, [],
  ◌∷◌, ◌++◌, arith, All, filter, ◌==◌, leb, Bool-cases, if◌then◌else◌, ◌∙◌, Result, ok, err,
}
use coparentes_backend.Common.Store.{Store}
use coparentes_backend.Common.Rows.{filter-append}
use coparentes_backend.Consents.{
  ConsentType, same_type, is_required, Consent, of_user, latest, granted_of, current_consent,
  update_user_consent,
}

-- A call of `updateUserConsent`.
pub record Request : Type 0 where
  pub user : ℕ
  pub consent_type : ConsentType
  pub granted : Bool
  pub time : ℕ
  pub ip_hash : String

abbrev pub View : Type 0
View = ℕ → ConsentType → Bool

-- What a request does to the view: a required consent is never withdrawn.
abbrev pub apply_request : Request → View → View
apply_request r f user ty =
    if is_required r.consent_type && not r.granted
    then f user ty
    else if r.user == user && same_type r.consent_type ty
    then r.granted
    else f user ty

-- The requests in turn, on the view.
unfoldable pub replay : List Request → View → View
replay [] f = f
replay (r ∷ rs) f = replay rs (apply_request r f)

-- The requests come one after the other.
abbrev pub Ordered : ℕ → List Request → Type 0
Ordered past [] = Unit
Ordered past (r ∷ rs) = (past < r.time) × Ordered r.time rs

abbrev pub Until : ℕ → List Consent → Type 0
Until now = All (λ c. c.granted_at ≤ now)

abbrev pub Before : ℕ → List Consent → Type 0
Before now = All (λ c. leb c.granted_at now ≡ true)

-- A row that is newer than all others is the latest of its type and changes no other type.
latest_added :
    (ty : ConsentType) (x : Consent) (cs : List Consent)
    → Before x.granted_at cs
    → latest ty (cs ++ x ∷ []) ≡ (if same_type x.consent_type ty then some x else latest ty cs)
unfolding latest
latest_added ty x [] h = refl
latest_added ty x (c ∷ cs) h = elim (Bool-cases (same_type x.consent_type ty)) [
  | inl own ↦
      let rest : latest ty (cs ++ x ∷ []) ≡ some x = rw own at (latest_added ty x cs h.1) in
      elim (Bool-cases (same_type c.consent_type ty)) [
        | inl e ↦ rw (rest, own, e, h.0) refl
        | inr e ↦ rw (rest, own, e) refl
      ]
  | inr other ↦
      let rest : latest ty (cs ++ x ∷ []) ≡ latest ty cs = rw other at (latest_added ty x cs h.1) in
      rw (rest, other) refl
]

Before-filter :
    (now : ℕ) (p : Consent → Bool) (cs : List Consent) → Before now cs → Before now (filter p cs)
Before-filter now p [] h = tt
Before-filter now p (c ∷ cs) h = elim (Bool-cases (p c)) [
  | inl e ↦ rw e (h.0, Before-filter now p cs h.1)
  | inr e ↦ rw e (Before-filter now p cs h.1)
]

-- What is before one instant is before a later one, with the row of that instant.
Before-later :
    (past now : ℕ) (x : Consent) (cs : List Consent)
    → Until past cs
    → past < now
    → x.granted_at ≡ now
    → Until now (cs ++ x ∷ [])
Before-later past now x [] h l e = (omega arith, tt)
Before-later past now x (c ∷ cs) h l e = (omega arith, Before-later past now x cs h.1 l e)

Until-later : (past now : ℕ) (cs : List Consent) → Until past cs → past < now → Until now cs
Until-later past now [] h l = tt
Until-later past now (c ∷ cs) h l = (omega arith, Until-later past now cs h.1 l)

Until-Before : (past now : ℕ) (cs : List Consent) → Until past cs → past < now → Before now cs
Until-Before past now [] h l = tt
Until-Before past now (c ∷ cs) h l = (ground (arith, h.0, l), Until-Before past now cs h.1 l)

granted_if :
    (b : Bool) (c : Consent) (o : Option Consent)
    → granted_of (if b then some c else o) ≡ (if b then c.granted else granted_of o)
granted_if true c o = refl
granted_if false c o = refl

-- The replay reads the view only at its points.
replay_congr :
    (rs : List Request) (f g : View)
    → ((user : ℕ) (ty : ConsentType) → f user ty ≡ g user ty)
    → (user : ℕ) (ty : ConsentType) → replay rs f user ty ≡ replay rs g user ty
unfolding replay
replay_congr [] f g h user ty = h user ty
replay_congr (r ∷ rs) f g h user ty =
    replay_congr rs (apply_request r f) (apply_request r g) (λ u t. rw (h u t) refl) user ty

module _ (s : Store) where
  abbrev pub view : s.Table Consent → View
  view t user ty = current_consent s t user ty

  -- The table after a call; a refused one leaves it alone.
  abbrev pub table_after : s.Table Consent → Result (Consent × s.Table Consent) → s.Table Consent
  table_after t (err _) = t
  table_after t (ok (_, t')) = t'

  unfoldable pub run : List Request → s.Table Consent → s.Table Consent
  run [] t = t
  run (r ∷ rs) t =
      run rs
        (table_after t (update_user_consent s t r.user r.consent_type r.granted r.time r.ip_hash))

  view_after :
      (t : s.Table Consent) (r : Request) (past user : ℕ) (ty : ConsentType)
      → Until past (s.rows t)
      → past < r.time
      → view
          (table_after t (update_user_consent s t r.user r.consent_type r.granted r.time r.ip_hash))
          user
          ty
        ≡ apply_request r (view t) user ty
  unfolding current_consent update_user_consent
  view_after t r past user ty h l =
      elim (Bool-cases (is_required r.consent_type && not r.granted)) [
        | inl locked ↦ rw locked refl
        | inr free ↦
            let older =
              Before-filter r.time (of_user user) (s.rows t)
                (Until-Before past r.time (s.rows t) h l) in
            elim (Bool-cases (r.user == user)) [
              | inl own ↦
                  rw
                    (
                      free,
                      s.find_many-rows,
                      s.find_many-rows,
                      s.rows-create,
                      filter-append,
                      own,
                      latest_added ty _ _ older,
                    )
                    (granted_if (same_type r.consent_type ty) _ _)
              | inr other ↦
                  rw
                    (
                      free, s.find_many-rows, s.find_many-rows, s.rows-create, filter-append, other,
                      append-nil,
                    )
                    refl
            ]
      ]

  Until-after :
      (t : s.Table Consent) (r : Request) (past : ℕ)
      → Until past (s.rows t)
      → past < r.time
      → Until r.time (
          s.rows (
            table_after t
              (update_user_consent s t r.user r.consent_type r.granted r.time r.ip_hash)))
  unfolding update_user_consent
  Until-after t r past h l = elim (Bool-cases (is_required r.consent_type && not r.granted)) [
    | inl locked ↦ rw locked (Until-later past r.time (s.rows t) h l)
    | inr free ↦ rw (free, s.rows-create) (Before-later past r.time _ (s.rows t) h l refl)
  ]

  -- Calls of `updateUserConsent` one after the other, each later than the rows of the table, leave every user each
  -- consent as the last call about it that was not refused set it, and as it was before when there is none. A call that would
  -- withdraw a required consent is refused and changes nothing.
  pub run_refines :
      (rs : List Request) (t : s.Table Consent) (past : ℕ)
      → Until past (s.rows t)
      → Ordered past rs
      → (user : ℕ) (ty : ConsentType) → view (run rs t) user ty ≡ replay rs (view t) user ty
  unfolding run replay
  run_refines [] t past h o user ty = refl
  run_refines (r ∷ rs) t past h o user ty =
      run_refines rs _ r.time (Until-after t r past h o.0) o.1 user ty
      ∙ replay_congr rs _ _ (λ u k. view_after t r past u k h o.0) user ty
