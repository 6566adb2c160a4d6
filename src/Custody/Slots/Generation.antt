-- ===== src/Custody/Slots/Generation.antt =====
-- What `generateSlotsFromSchedule` promises.
use mathlib.Core.List.{Memᴰ}
use coparentes_backend.Common.{
  ℕ, zero, suc, ◌+◌, ◌-◌, ◌*◌, ◌/◌, ◌%◌, ◌≤◌, ◌<◌, ◌≡◌, refl, ap, inl, inr, true, false, ◌&&◌, none,
  List, [], ◌∷◌, map, arith, ◌==◌, ==_iff, Bool-cases, Option-cases, ◌∙◌,
}
use coparentes_backend.Common.Store.{Store}
use coparentes_backend.Common.Rows.{mem-filter_of}
use coparentes_backend.Custody.Dates.{ms_per_day, utc_day_start}
use coparentes_backend.Custody.Dates.Laws.{
  utc_day_start_bounds, add_utc_months_year, add_utc_months_whole, add_utc_days_whole,
}
use coparentes_backend.Custody.Slots.{
  Slot, Source, Schedule, is_protected, from_schedule, in_range, day_in, upsert_days, days_from,
  generated_days, generation_end, protected_days, delete_generated, generate_slots_from_schedule,
}
use coparentes_backend.Custody.Slots.Coverage.{
  slot_at, Written, upsert_rows_days, listed-Written, Untouched, mem-upsert_rows_days,
}

-- The loop makes a round for every whole number of days from the cursor on, below the count.
pub day_in-days_from :
    (cursor n k d : ℕ) → d ≡ cursor + k * ms_per_day → k < n → day_in (days_from cursor n) d ≡ true
unfolding days_from
day_in-days_from cursor zero k d e lt = absurd (omega arith)
day_in-days_from cursor (suc n) zero d e lt = ground arith
day_in-days_from cursor (suc n) (suc k) d e lt =
    ground (arith, day_in-days_from (cursor + ms_per_day) n k d (omega arith) (omega arith))

-- Every day start from the schedule's first day to the end is generated.
generated_days_complete :
    (sch : Schedule) (months d : ℕ)
    → d % ms_per_day ≡ 0
    → utc_day_start sch.start_date ≤ d
    → d < generation_end sch months
    → generation_end sch months % ms_per_day ≡ 0
    → day_in (generated_days sch months) d ≡ true
unfolding generated_days
generated_days_complete sch months d whole from to end_whole =
    let start = utc_day_start sch.start_date in
    let (_, _, start_whole) = utc_day_start_bounds sch.start_date in
    day_in-days_from start _ ((d - start) / ms_per_day) d (omega arith) (omega arith)

generation_end_whole : (sch : Schedule) (months : ℕ) → generation_end sch months % ms_per_day ≡ 0
unfolding generation_end
generation_end_whole sch months = elim (Option-cases sch.end_date) [
  | inl open_end ↦
      rw (open_end, generation_end)
        (add_utc_months_whole _ months (utc_day_start_bounds sch.start_date).2)
  | inr (last, given) ↦
      rw (given, generation_end) (add_utc_days_whole _ 1 (utc_day_start_bounds last).2)
]

-- A protected slot of the range, on a day start, is among the days that are kept out.
day_in-dates :
    (sls : List Slot) {sl : Slot}
    → Memᴰ sl sls
    → utc_day_start sl.date ≡ sl.date
    → day_in (map (λ x. utc_day_start x.date) sls) sl.date ≡ true
day_in-dates [] m whole = elim m [ ]
day_in-dates (x ∷ sls) {sl} (Memᴰ.head e) whole =
    let same = ap (λ (y : Slot). utc_day_start y.date) e in
    let hit = (==_iff (utc_day_start x.date) sl.date).1 (cc) in rw hit
day_in-dates (x ∷ sls) (Memᴰ.tail m) whole = ground (arith, day_in-dates sls m whole)

protected_source : (x : Source) → is_protected x ≡ true → from_schedule x ≡ false
protected_source x h = ground arith

pub days_from_bounds :
    (cursor n d : ℕ)
    → day_in (days_from cursor n) d ≡ true
    → (cursor ≤ d) × (d < cursor + n * ms_per_day)
unfolding days_from
days_from_bounds cursor zero d h = cc
days_from_bounds cursor (suc n) d h = elim (Bool-cases (cursor == d)) [
  | inl same ↦ ground arith
  | inr other ↦
      let later = days_from_bounds (cursor + ms_per_day) n d (rw other at h) in omega (arith, later)
]

generated_in_range :
    (sch : Schedule) (months d : ℕ)
    → day_in (generated_days sch months) d ≡ true
    → in_range (utc_day_start sch.start_date) (generation_end sch months) d ≡ true
unfolding generated_days
generated_in_range sch months d h = let bounds = days_from_bounds _ _ d h in ground (arith, bounds)

module _ (s : Store) (new_id : ℕ → ℕ) (sch : Schedule) where
  rows-upsert_days :
      (protected ds : List ℕ) (t : s.Table Slot)
      → s.rows (upsert_days s new_id sch protected ds t)
        ≡ upsert_rows_days new_id sch protected ds (s.rows t)
  unfolding upsert_days upsert_rows_days
  rows-upsert_days protected [] t = refl
  rows-upsert_days protected (d ∷ ds) t = elim (Bool-cases (day_in protected d)) [
    | inl skip ↦ simp skip (rows-upsert_days protected ds t)
    | inr go ↦ simp go (
        rows-upsert_days protected ds _
        ∙ ap (upsert_rows_days new_id sch protected ds) (s.rows-upsert _ _ _ _))
  ]

  rows-generate :
      (months : ℕ) (t : s.Table Slot)
      → let end = generation_end sch months in
        s.rows (generate_slots_from_schedule s new_id sch months t)
        ≡ upsert_rows_days new_id sch
            (protected_days s sch end t)
            (generated_days sch months)
            (s.rows (delete_generated s sch end t))
  unfolding generate_slots_from_schedule
  rows-generate months t = rows-upsert_days _ _ _

  -- After the generation, every day from the schedule's first one up to the end that is not kept by
  -- an exception or a swap has a slot with the custodian that the pattern names and the schedule's
  -- handover, whatever slot stood there before.
  pub generate_covers :
      (months d : ℕ) (t : s.Table Slot)
      → d % ms_per_day ≡ 0
      → utc_day_start sch.start_date ≤ d
      → d < generation_end sch months
      → day_in (protected_days s sch (generation_end sch months) t) d ≡ false
      → Written sch d
          (slot_at sch.workspace_id d (s.rows (generate_slots_from_schedule s new_id sch months t)))
  generate_covers months d t whole from to free = rw (rows-generate months t) (
      listed-Written new_id sch d _ (generated_days sch months) _
        (generated_days_complete sch months d whole from to (generation_end_whole sch months)) free)

  -- Where the schedule has no end, a year of days is generated: at least 365.
  pub generate_year :
      sch.end_date ≡ none → utc_day_start sch.start_date + 365 * ms_per_day ≤ generation_end sch 12
  unfolding generation_end
  generate_year open_end = rw (open_end, generation_end) (add_utc_months_year _).0

  protected_listed :
      (end : ℕ) (t : s.Table Slot) (sl : Slot)
      → Memᴰ sl (s.rows t)
      → utc_day_start sl.date ≡ sl.date
      → (sl.workspace_id == sch.workspace_id
          && (in_range (utc_day_start sch.start_date) end sl.date && is_protected sl.source))
        ≡ true
      → day_in (protected_days s sch end t) sl.date ≡ true
  unfolding protected_days
  protected_listed end t sl m whole hit =
      rw s.find_many-rows (day_in-dates _ (mem-filter_of _ (s.rows t) hit m) whole)

  protected-Untouched :
      (months : ℕ) (t : s.Table Slot) (sl : Slot)
      → Memᴰ sl (s.rows t)
      → is_protected sl.source ≡ true
      → utc_day_start sl.date ≡ sl.date
      → Untouched new_id sch
          (protected_days s sch (generation_end sch months) t)
          (generated_days sch months)
          sl
  protected-Untouched months t sl m kept whole = ground (
    arith,
    generated_in_range sch months sl.date,
    protected_listed (generation_end sch months) t sl m whole,
  )

  delete_keeps :
      (end : ℕ) (t : s.Table Slot) (sl : Slot)
      → Memᴰ sl (s.rows t)
      → is_protected sl.source ≡ true
      → Memᴰ sl (s.rows (delete_generated s sch end t))
  unfolding delete_generated
  delete_keeps end t sl m kept =
      rw s.rows-delete_many
        (mem-filter_of _ (s.rows t) (ground (arith, protected_source sl.source kept)) m)

  -- A slot that an exception or a swap has set stays as it is, row for row, in every workspace, where
  -- its date is a day start.
  pub generate_keeps_protected :
      (months : ℕ) (t : s.Table Slot) (sl : Slot)
      → Memᴰ sl (s.rows t)
      → is_protected sl.source ≡ true
      → utc_day_start sl.date ≡ sl.date
      → Memᴰ sl (s.rows (generate_slots_from_schedule s new_id sch months t))
  generate_keeps_protected months t sl m kept whole = rw (rows-generate months t) (
      mem-upsert_rows_days new_id sch _ (generated_days sch months) _
        (protected-Untouched months t sl m kept whole)
        (delete_keeps (generation_end sch months) t sl m kept))
