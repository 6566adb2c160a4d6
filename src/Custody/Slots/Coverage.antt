-- ===== src/Custody/Slots/Coverage.antt =====
-- Which day has which slot after the generation.
use coparentes_backend.Common.{
  ℕ, ◌≡◌, refl, ap, inl, inr, Bool, true, false, not, ◌&&◌, Option, none, some, List, [], ◌∷◌, ◌++◌,
  arith, any, ◌==◌, Bool-cases, Option-cases, ==_iff, subst, if◌then◌else◌,
}
use mathlib.Core.List.{Memᴰ}
use coparentes_backend.Custody.Pattern.{get_custodian_for_date}
use coparentes_backend.Common.Rows.{mem-update_rows, mem-append_last}
use coparentes_backend.Common.Store.{update_rows, upsert_rows}
use coparentes_backend.Custody.Slots.{
  Slot, schedule, Schedule, at_day, schedule_slot, write_schedule, day_in,
}

-- The slot of a workspace on a day.
abbrev pub slot_at : ℕ → ℕ → List Slot → Option Slot
slot_at ws d [] = none
slot_at ws d (sl ∷ sls) = if at_day ws d sl then some sl else slot_at ws d sls

-- An update that leaves keys alone changes what is found exactly where it applies.
pub slot_at-update_rows :
    (ws d : ℕ) (p : Slot → Bool) (f : Slot → Slot) (sls : List Slot)
    → ((sl : Slot) → at_day ws d (f sl) ≡ at_day ws d sl)
    → slot_at ws d (update_rows p f sls)
      ≡ elim (slot_at ws d sls) [ none ↦ none | some sl ↦ some (if p sl then f sl else sl) ]
slot_at-update_rows ws d p f [] keeps = refl
slot_at-update_rows ws d p f (sl ∷ sls) keeps =
    ground (arith, keeps sl, slot_at-update_rows ws d p f sls keeps)

pub slot_at-append :
    (ws d : ℕ) (sls : List Slot) (x : Slot)
    → slot_at ws d (sls ++ x ∷ []) ≡ elim (slot_at ws d sls) [
      | some sl ↦ some sl
      | none ↦ if at_day ws d x then some x else none
    ]
slot_at-append ws d [] x = refl
slot_at-append ws d (sl ∷ sls) x = ground (arith, slot_at-append ws d sls x)

pub slot_at-append_other :
    (ws d : ℕ) (sls : List Slot) (x : Slot)
    → at_day ws d x ≡ false
    → slot_at ws d (sls ++ x ∷ []) ≡ slot_at ws d sls
slot_at-append_other ws d [] x e = ground arith
slot_at-append_other ws d (sl ∷ sls) x e = ground (arith, slot_at-append_other ws d sls x e)

pub any-at_day :
    (ws d : ℕ) (sls : List Slot)
    → any (at_day ws d) sls ≡ elim (slot_at ws d sls) [ none ↦ false | some _ ↦ true ]
any-at_day ws d [] = refl
any-at_day ws d (sl ∷ sls) = ground (arith, any-at_day ws d sls)

pub slot_at_hit :
    (ws d : ℕ) (sls : List Slot) (sl : Slot) → slot_at ws d sls ≡ some sl → at_day ws d sl ≡ true
slot_at_hit ws d [] sl e = cc
slot_at_hit ws d (x ∷ sls) sl e = ground (arith, slot_at_hit ws d sls sl)

-- The slot holds what the schedule says for the day.
abbrev pub Written : Schedule → ℕ → Option Slot → Type 0
Written sch d none = ⊥
Written sch d (some sl) =
    (sl.custodian ≡ get_custodian_for_date sch.pattern_type sch.start_date sch.weeks d)
    × (sl.source ≡ schedule)
    × (sl.schedule_id ≡ some sch.id)
    × (sl.handover_time ≡ sch.handover_time)
    × (sl.handover_location ≡ sch.handover_location)

module _ (new_id : ℕ → ℕ) (sch : Schedule) where
  abbrev pub upsert_day : ℕ → List Slot → List Slot
  upsert_day d =
      upsert_rows (at_day sch.workspace_id d) (write_schedule sch d) (schedule_slot new_id sch d)

  written_rows :
      (ws d e : ℕ) (sls : List Slot)
      → slot_at ws d (update_rows (at_day sch.workspace_id e) (write_schedule sch e) sls)
        ≡ elim (slot_at ws d sls) [
          | none ↦ none
          | some sl ↦ some (if at_day sch.workspace_id e sl then write_schedule sch e sl else sl)
        ]
  written_rows ws d e sls =
      slot_at-update_rows ws d (at_day sch.workspace_id e) (write_schedule sch e) sls (λ sl. refl)

  slot_at-upsert_day_self :
      (d : ℕ) (sls : List Slot) → Written sch d (slot_at sch.workspace_id d (upsert_day d sls))
  slot_at-upsert_day_self d sls = elim (Option-cases (slot_at sch.workspace_id d sls)) [
    | inl missing ↦
        let no_row : any (at_day sch.workspace_id d) sls ≡ false =
          rw (any-at_day sch.workspace_id d sls, missing) refl in
        let own : at_day sch.workspace_id d (schedule_slot new_id sch d) ≡ true = ground arith in
        rw
          (no_row, slot_at-append sch.workspace_id d sls (schedule_slot new_id sch d), missing, own)
          (refl, refl, refl, refl, refl)
    | inr (sl, found) ↦
        let some_row : any (at_day sch.workspace_id d) sls ≡ true =
          rw (any-at_day sch.workspace_id d sls, found) refl in
        let hit = slot_at_hit sch.workspace_id d sls sl found in
        rw (some_row, written_rows sch.workspace_id d d sls, found, hit)
          (refl, refl, refl, refl, refl)
  ]

  slot_at-upsert_day_ne :
      (d e : ℕ) (sls : List Slot)
      → (d == e) ≡ false
      → slot_at sch.workspace_id d (upsert_day e sls) ≡ slot_at sch.workspace_id d sls
  slot_at-upsert_day_ne d e sls ne = elim (Bool-cases (any (at_day sch.workspace_id e) sls)) [
    | inl some_row ↦
        rw (some_row, written_rows sch.workspace_id d e sls)
          (other_row (slot_at sch.workspace_id d sls) (slot_at_hit sch.workspace_id d sls))
    | inr no_row ↦
        let other : at_day sch.workspace_id d (schedule_slot new_id sch e) ≡ false = ground arith in
        rw no_row (slot_at-append_other sch.workspace_id d sls (schedule_slot new_id sch e) other)
  ]
    where
      other_row :
          (o : Option Slot)
          → ((sl : Slot) → o ≡ some sl → at_day sch.workspace_id d sl ≡ true)
          → elim o [
            | none ↦ none
            | some sl ↦ some (if at_day sch.workspace_id e sl then write_schedule sch e sl else sl)
          ]
            ≡ o
      other_row none hit = refl
      other_row (some sl) hit = ground (arith, hit sl refl)

  mem-upsert_day :
      (e : ℕ) (sls : List Slot) {sl : Slot}
      → at_day sch.workspace_id e sl ≡ false
      → Memᴰ sl sls
      → Memᴰ sl (upsert_day e sls)
  mem-upsert_day e sls miss m = elim (Bool-cases (any (at_day sch.workspace_id e) sls)) [
    | inl some_row ↦
        rw some_row (mem-update_rows (at_day sch.workspace_id e) (write_schedule sch e) sls miss m)
    | inr no_row ↦ rw no_row (mem-append_last sls _ m)
  ]

  -- The effect of the whole loop on one day.
  unfoldable pub upsert_rows_days : List ℕ → List ℕ → List Slot → List Slot
  upsert_rows_days protected [] sls = sls
  upsert_rows_days protected (d ∷ ds) sls =
      upsert_rows_days protected ds (if day_in protected d then sls else upsert_day d sls)

  Written-upsert_day :
      (d e : ℕ) (sls : List Slot)
      → Written sch d (slot_at sch.workspace_id d sls)
      → Written sch d (slot_at sch.workspace_id d (upsert_day e sls))
  Written-upsert_day d e sls w = elim (Bool-cases (d == e)) [
    | inl same ↦
        let eq : d ≡ e = (==_iff d e).0 same in
        subst (λ y. Written sch d (slot_at sch.workspace_id d (upsert_day y sls))) eq
          (slot_at-upsert_day_self d sls)
    | inr other ↦ rw (slot_at-upsert_day_ne d e sls other) w
  ]

  Written-upsert_rows_days :
      (d : ℕ) (protected ds : List ℕ) (sls : List Slot)
      → Written sch d (slot_at sch.workspace_id d sls)
      → Written sch d (slot_at sch.workspace_id d (upsert_rows_days protected ds sls))
  unfolding upsert_rows_days
  Written-upsert_rows_days d protected [] sls w = w
  Written-upsert_rows_days d protected (e ∷ ds) sls w = elim (Bool-cases (day_in protected e)) [
    | inl skip ↦ rw skip (Written-upsert_rows_days d protected ds sls w)
    | inr go ↦
        rw go (
          Written-upsert_rows_days d protected ds (upsert_day e sls) (Written-upsert_day d e sls w))
  ]

  pub listed-Written :
      (d : ℕ) (protected ds : List ℕ) (sls : List Slot)
      → day_in ds d ≡ true
      → day_in protected d ≡ false
      → Written sch d (slot_at sch.workspace_id d (upsert_rows_days protected ds sls))
  unfolding upsert_rows_days
  listed-Written d protected [] sls listed free = cc
  listed-Written d protected (e ∷ ds) sls listed free = elim (Bool-cases (e == d)) [
    | inl same ↦
        let eq : e ≡ d = (==_iff e d).0 same in
        rw (eq, free)
          (Written-upsert_rows_days d protected ds (upsert_day d sls)
            (slot_at-upsert_day_self d sls))
    | inr other ↦ listed-Written d protected ds _ (rw other at listed) free
  ]

  -- A day that is either kept out or not on the list is not written.
  abbrev pub Untouched : List ℕ → List ℕ → Slot → Type 0
  Untouched protected ds sl =
      (sl.workspace_id == sch.workspace_id && (day_in ds sl.date && not (day_in protected sl.date)))
      ≡ false

  Untouched-step :
      (protected ds : List ℕ) (sl : Slot) (e : ℕ)
      → Untouched protected (e ∷ ds) sl
      → day_in protected e ≡ false
      → (at_day sch.workspace_id e sl ≡ false) × Untouched protected ds sl
  Untouched-step protected ds sl e safe go = elim (Bool-cases (sl.date == e)) [
    | inl same ↦ let eq = ap (day_in protected) ((==_iff sl.date e).0 same) in ground (arith, eq)
    | inr other ↦ ground arith
  ]

  pub mem-upsert_rows_days :
      (protected ds : List ℕ) (sls : List Slot) {sl : Slot}
      → Untouched protected ds sl
      → Memᴰ sl sls
      → Memᴰ sl (upsert_rows_days protected ds sls)
  unfolding upsert_rows_days
  mem-upsert_rows_days protected [] sls safe m = m
  mem-upsert_rows_days protected (e ∷ ds) sls {sl} safe m = elim (Bool-cases (day_in protected e)) [
    | inl skip ↦ rw skip (mem-upsert_rows_days protected ds sls (ground arith) m)
    | inr go ↦
        let (miss, later) = Untouched-step protected ds sl e safe go in
        rw go
          (mem-upsert_rows_days protected ds (upsert_day e sls) later (mem-upsert_day e sls miss m))
  ]
