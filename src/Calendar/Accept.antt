-- ===== src/Calendar/Accept.antt =====
-- Accepting a swap, from the request to the calendar.
use coparentes_backend.Common.{
  ℕ, ◌+◌, ◌%◌, ◌≤◌, ◌≡◌, ◌≢◌, refl, sym, ap, subst, inl, inr, false, Option, none, some, List, [],
  ◌∷◌, ◌++◌, arith, count, ◌==◌, ==_iff, Bool-cases, Option-cases, ◌∙◌,
}
use coparentes_backend.Common.Store.{Store, find}
use coparentes_backend.Common.Rows.Unique.{
  Finds-find, find-append_one, count-append_one, count_of_find-none,
}
use coparentes_backend.Custody.Dates.{ms_per_day, utc_day_start}
use coparentes_backend.Custody.Dates.Laws.{utc_day_start_bounds}
use coparentes_backend.Custody.Slots.{Slot, Schedule}
use coparentes_backend.Calendar.Swaps.{on_day, missing_slot, find_slot, ensure_found, ensure_slot}
use coparentes_backend.Calendar.Exchange.{IsCalendar, custodian_of, shown, planned}

-- A search came up with the slot of its day, or the day has no custodian at all.
abbrev pub Settles : ℕ → Option Schedule → ℕ → List Slot → Option Slot → Type 0
Settles ws sch d rows none = custodian_of sch ws rows d ≡ none
Settles ws sch d rows (some a) = find (on_day ws d) rows ≡ some a

-- What `ensureCustodySlotForDay` does to the rows: it may add a slot with a new id, which changes no day.
pub record Ensures (ws : ℕ) (sch : Option Schedule) (d id : ℕ) (old rows : List Slot)
    (o : Option Slot) : Type 0 where
  pub valid : IsCalendar ws rows
  pub settles : Settles ws sch d rows o
  pub kept : (x : ℕ) → x % ms_per_day ≡ 0 → custodian_of sch ws rows x ≡ custodian_of sch ws old x
  pub stays :
      (x : ℕ) (c : Slot) → find (on_day ws x) old ≡ some c → find (on_day ws x) rows ≡ some c
  pub ids : (k : ℕ) → k ≢ id → count (λ r. r.id == k) rows ≡ count (λ r. r.id == k) old

module _ (ws : ℕ) where
  -- The slot that is created stands on its own day only.
  missing_on_day :
      (id date x : ℕ) (sch : Schedule)
      → x % ms_per_day ≡ 0
      → on_day ws x (missing_slot id ws date sch) ≡ (x == utc_day_start date)
  missing_on_day id date x sch whole =
      let (_, _, start) = utc_day_start_bounds date in
      elim (Bool-cases (x == utc_day_start date)) [
        | inl same ↦ let e : x ≡ utc_day_start date = (==_iff _ _).0 same in ground (arith, e)
        | inr other ↦ elim (Bool-cases (on_day ws x (missing_slot id ws date sch))) [
          | inr off ↦ off ∙ sym other
          | inl on ↦
              let near : (x ≤ utc_day_start date) × (utc_day_start date + 1 ≤ x + ms_per_day) =
                ground arith in
              let e : x ≡ utc_day_start date = omega (arith, near, start, whole) in
              absurd (cc (other, (==_iff x (utc_day_start date)).1 e))
        ]
      ]

  created-IsCalendar :
      (sch : Schedule) (date id : ℕ) (old : List Slot)
      → IsCalendar ws old
      → count (λ r. r.id == id) old ≡ 0
      → find (on_day ws (utc_day_start date)) old ≡ none
      → IsCalendar ws (old ++ missing_slot id ws date sch ∷ [])
  created-IsCalendar sch date id old valid fresh free = record {
    ids = λ k. elim (Bool-cases (id == k)) [
      | inl same ↦
          let e : id ≡ k = (==_iff id k).0 same in
          rw (count-append_one (λ r. r.id == k) old (missing_slot id ws date sch), same)
            (omega (arith, subst (λ j. count (λ r. r.id == j) old ≡ 0) e fresh))
      | inr other ↦
          rw (count-append_one (λ r. r.id == k) old (missing_slot id ws date sch), other)
            (omega (arith, valid.ids k))
    ];
    days = λ x whole. elim (Bool-cases (x == utc_day_start date)) [
      | inl same ↦
          let e : x ≡ utc_day_start date = (==_iff _ _).0 same in
          rw
            (
              count-append_one (on_day ws x) old (missing_slot id ws date sch),
              missing_on_day id date x sch whole,
              same,
            )
            (omega (
              arith,
              count_of_find-none (on_day ws x) old
                  (subst (λ y. find (on_day ws y) old ≡ none) (sym e) free),
            ))
      | inr other ↦
          rw
            (
              count-append_one (on_day ws x) old (missing_slot id ws date sch),
              missing_on_day id date x sch whole,
              other,
            )
            (omega (arith, valid.days x whole))
    ];
  }

  created_keeps :
      (sch : Schedule) (date id x : ℕ) (old : List Slot)
      → find (on_day ws (utc_day_start date)) old ≡ none
      → x % ms_per_day ≡ 0
      → custodian_of (some sch) ws (old ++ missing_slot id ws date sch ∷ []) x
        ≡ custodian_of (some sch) ws old x
  created_keeps sch date id x old free whole = elim (Option-cases (find (on_day ws x) old)) [
    | inr (c, found) ↦
        rw (find-append_one (on_day ws x) old (missing_slot id ws date sch), found) refl
    | inl absent ↦ elim (Bool-cases (x == utc_day_start date)) [
      | inl same ↦
          rw
            (
              find-append_one (on_day ws x) old (missing_slot id ws date sch),
              absent,
              missing_on_day id date x sch whole,
              same,
            )
            (ap (λ y. planned (some sch) y) (sym ((==_iff x (utc_day_start date)).0 same)))
      | inr other ↦
          rw
            (
              find-append_one (on_day ws x) old (missing_slot id ws date sch),
              absent,
              missing_on_day id date x sch whole,
              other,
            )
            refl
    ]
  ]

  created-Ensures :
      (sch : Schedule) (date id : ℕ) (old : List Slot)
      → IsCalendar ws old
      → count (λ r. r.id == id) old ≡ 0
      → find (on_day ws (utc_day_start date)) old ≡ none
      → Ensures ws
          (some sch)
          (utc_day_start date)
          id
          old
          (old ++ missing_slot id ws date sch ∷ [])
          (some (missing_slot id ws date sch))
  created-Ensures sch date id old valid fresh free = record {
    valid = created-IsCalendar sch date id old valid fresh free;
    settles =
        let own = missing_on_day id date (utc_day_start date) sch (utc_day_start_bounds date).2 in
        let itself = (==_iff (utc_day_start date) (utc_day_start date)).1 refl in
        rw
          (
            find-append_one (on_day ws (utc_day_start date)) old (missing_slot id ws date sch),
            free,
            own,
            itself,
          )
          refl;
    kept = λ x whole. created_keeps sch date id x old free whole;
    stays = λ x c found.
        rw (find-append_one (on_day ws x) old (missing_slot id ws date sch), found) refl;
    ids = λ k ne.
        let differ : (id == k) ≡ false = ground (arith, ne) in
        rw (count-append_one (λ r. r.id == k) old (missing_slot id ws date sch), differ)
          (omega arith);
  }

  unchanged-Ensures :
      (sch : Option Schedule) (d id : ℕ) (old : List Slot) (o : Option Slot)
      → IsCalendar ws old
      → Settles ws sch d old o
      → Ensures ws sch d id old old o
  unchanged-Ensures sch d id old o valid settles = record {
    valid = valid;
    settles = settles;
    kept = λ x whole. refl;
    stays = λ x c found. found;
    ids = λ k ne. refl;
  }

  module _ (s : Store) where
    ensure_found-Ensures :
        (t : s.Table Slot) (id date : ℕ) (sch : Option Schedule) (o : Option Slot)
        → IsCalendar ws (s.rows t)
        → count (λ r. r.id == id) (s.rows t) ≡ 0
        → o ≡ find (on_day ws (utc_day_start date)) (s.rows t)
        → Ensures ws sch
            (utc_day_start date)
            id
            (s.rows t)
            (s.rows (ensure_found s t id ws date sch o).1)
            (ensure_found s t id ws date sch o).0
    unfolding ensure_found
    ensure_found-Ensures t id date sch (some a) valid fresh found =
        unchanged-Ensures sch (utc_day_start date) id (s.rows t) (some a) valid (sym found)
    ensure_found-Ensures t id date none none valid fresh found =
        unchanged-Ensures none (utc_day_start date) id (s.rows t) none valid
          (ap (shown none (utc_day_start date)) (sym found))
    ensure_found-Ensures t id date (some sch) none valid fresh found =
        rw s.rows-create (created-Ensures sch date id (s.rows t) valid fresh (sym found))

    pub ensure_slot-Ensures :
        (t : s.Table Slot) (id date : ℕ) (sch : Option Schedule)
        → IsCalendar ws (s.rows t)
        → count (λ r. r.id == id) (s.rows t) ≡ 0
        → Ensures ws sch
            (utc_day_start date)
            id
            (s.rows t)
            (s.rows (ensure_slot s t id ws date sch).1)
            (ensure_slot s t id ws date sch).0
    unfolding ensure_slot find_slot
    ensure_slot-Ensures t id date sch valid fresh =
        ensure_found-Ensures t id date sch _ valid fresh (
          Finds-find (on_day ws (utc_day_start date)) (s.rows t) _
            (valid.days (utc_day_start date) (utc_day_start_bounds date).2)
            (s.find_first-Finds _ t))
