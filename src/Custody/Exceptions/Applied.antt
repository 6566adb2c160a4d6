-- ===== src/Custody/Exceptions/Applied.antt =====
-- What an accepted exception leaves in the calendar.
use coparentes_backend.Common.{
  ℕ, ◌≡◌, refl, ap, subst, inl, inr, true, false, ◌&&◌, Option, none, some, List, [], ◌∷◌, any,
  arith, ◌==◌, ==_iff, Bool-cases, Option-cases, if◌then◌else◌, ◌∙◌,
}
use coparentes_backend.Common.Store.{Store, upsert_rows}
use coparentes_backend.Custody.Slots.{Slot, exception, at_day, day_in}
use coparentes_backend.Custody.Slots.Coverage.{
  slot_at, slot_at-update_rows, slot_at-append, slot_at-append_other, any-at_day, slot_at_hit,
}
use coparentes_backend.Custody.Exceptions.{
  CustodyException, exception_slot, write_exception, upsert_exception,
}

-- The slot holds what the exception says.
abbrev pub Excepted : CustodyException → Option Slot → Type 0
Excepted e none = ⊥
Excepted e (some sl) =
    (sl.custodian ≡ e.custodian) × (sl.source ≡ exception) × (sl.exception_id ≡ some e.id)

module _ (new_id : ℕ → ℕ) (e : CustodyException) where
  abbrev apply_day : ℕ → List Slot → List Slot
  apply_day d =
      upsert_rows (at_day e.workspace_id d) (write_exception e) (exception_slot new_id e d)

  slot_at-apply_day_self :
      (d : ℕ) (sls : List Slot) → Excepted e (slot_at e.workspace_id d (apply_day d sls))
  slot_at-apply_day_self d sls = elim (Option-cases (slot_at e.workspace_id d sls)) [
    | inl missing ↦
        let no_row : any (at_day e.workspace_id d) sls ≡ false =
          rw (any-at_day e.workspace_id d sls, missing) refl in
        let own : at_day e.workspace_id d (exception_slot new_id e d) ≡ true = ground arith in
        rw (no_row, slot_at-append e.workspace_id d sls (exception_slot new_id e d), missing, own)
          (refl, refl, refl)
    | inr (sl, found) ↦
        let some_row : any (at_day e.workspace_id d) sls ≡ true =
          rw (any-at_day e.workspace_id d sls, found) refl in
        let hit = slot_at_hit e.workspace_id d sls sl found in
        rw
          (
            some_row,
            slot_at-update_rows e.workspace_id d (at_day e.workspace_id d) (write_exception e) sls
                (λ sl. refl),
            found,
            hit,
          )
          (refl, refl, refl)
  ]

  other_row :
      (ws d c : ℕ) (o : Option Slot)
      → (ws == e.workspace_id && d == c) ≡ false
      → ((sl : Slot) → o ≡ some sl → at_day ws d sl ≡ true)
      → elim o [
        | none ↦ none
        | some sl ↦ some (if at_day e.workspace_id c sl then write_exception e sl else sl)
      ]
        ≡ o
  other_row ws d c none ne hit = refl
  other_row ws d c (some sl) ne hit = ground (arith, hit sl refl)

  slot_at-apply_day_ne :
      (ws d c : ℕ) (sls : List Slot)
      → (ws == e.workspace_id && d == c) ≡ false
      → slot_at ws d (apply_day c sls) ≡ slot_at ws d sls
  slot_at-apply_day_ne ws d c sls ne = elim (Bool-cases (any (at_day e.workspace_id c) sls)) [
    | inl some_row ↦
        rw
          (
            some_row,
            slot_at-update_rows ws d (at_day e.workspace_id c) (write_exception e) sls (λ sl. refl),
          )
          (other_row ws d c (slot_at ws d sls) ne (slot_at_hit ws d sls))
    | inr no_row ↦
        let other : at_day ws d (exception_slot new_id e c) ≡ false = ground arith in
        rw no_row (slot_at-append_other ws d sls (exception_slot new_id e c) other)
  ]

  unfoldable pub apply_days : List ℕ → List Slot → List Slot
  apply_days [] sls = sls
  apply_days (d ∷ ds) sls = apply_days ds (apply_day d sls)

  Excepted-apply_days :
      (d : ℕ) (ds : List ℕ) (sls : List Slot)
      → Excepted e (slot_at e.workspace_id d sls)
      → Excepted e (slot_at e.workspace_id d (apply_days ds sls))
  unfolding apply_days
  Excepted-apply_days d [] sls h = h
  Excepted-apply_days d (c ∷ ds) sls h =
      Excepted-apply_days d ds (apply_day c sls) (elim (Bool-cases (d == c)) [
        | inl same ↦
            let eq : d ≡ c = (==_iff d c).0 same in
            subst (λ y. Excepted e (slot_at e.workspace_id d (apply_day y sls))) eq
              (slot_at-apply_day_self d sls)
        | inr other ↦ rw (slot_at-apply_day_ne e.workspace_id d c sls (ground arith)) h
      ])

  pub listed-Excepted :
      (d : ℕ) (ds : List ℕ) (sls : List Slot)
      → day_in ds d ≡ true
      → Excepted e (slot_at e.workspace_id d (apply_days ds sls))
  unfolding apply_days
  listed-Excepted d [] sls listed = cc
  listed-Excepted d (c ∷ ds) sls listed = elim (Bool-cases (c == d)) [
    | inl same ↦
        let eq : c ≡ d = (==_iff c d).0 same in
        rw eq (Excepted-apply_days d ds (apply_day d sls) (slot_at-apply_day_self d sls))
    | inr other ↦ listed-Excepted d ds _ (rw other at listed)
  ]

  pub unlisted_stays :
      (ws d : ℕ) (ds : List ℕ) (sls : List Slot)
      → (ws == e.workspace_id && day_in ds d) ≡ false
      → slot_at ws d (apply_days ds sls) ≡ slot_at ws d sls
  unfolding apply_days
  unlisted_stays ws d [] sls out = refl
  unlisted_stays ws d (c ∷ ds) sls out =
      unlisted_stays ws d ds (apply_day c sls) (ground arith)
      ∙ slot_at-apply_day_ne ws d c sls (ground arith)

  pub rows-upsert_exception :
      (s : Store) (ds : List ℕ) (t : s.Table Slot)
      → s.rows (upsert_exception s new_id e ds t) ≡ apply_days ds (s.rows t)
  unfolding upsert_exception apply_days
  rows-upsert_exception s [] t = refl
  rows-upsert_exception s (d ∷ ds) t =
      rows-upsert_exception s ds _ ∙ ap (apply_days ds) (s.rows-upsert _ _ _ _)
