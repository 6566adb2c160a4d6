-- ===== src/Custody/Exceptions/Outcome.antt =====
-- What `respondToCustodyException` promises when the other parent accepts.
use coparentes_backend.Common.{
  ℕ, ◌+◌, ◌-◌, ◌/◌, ◌%◌, ◌≤◌, ◌<◌, ◌≡◌, ◌≢◌, ◌⊎◌, refl, inl, inr, true, false, ◌&&◌, Option, some,
  String, arith, ◌==◌, ltb, ok, Bool-cases,
}
use coparentes_backend.Common.Store.{Store, update_rows}
use coparentes_backend.Custody.Dates.{ms_per_day, utc_day_start}
use coparentes_backend.Custody.Dates.Laws.{utc_day_start_bounds}
use coparentes_backend.Custody.Pattern.{is_parent}
use coparentes_backend.Custody.Slots.{Member, day_in}
use coparentes_backend.Custody.Slots.Coverage.{slot_at}
use coparentes_backend.Custody.Slots.Generation.{day_in-days_from, days_from_bounds}
use coparentes_backend.Custody.Exceptions.{
  CustodyException, pending, accepted, Db, exception_days, apply_accepted_exception, answer,
  answer_found, respond_to_custody_exception,
}
use coparentes_backend.Custody.Exceptions.Applied.{
  Excepted, listed-Excepted, unlisted_stays, rows-upsert_exception,
}

exception_days_complete :
    (e : CustodyException) (d : ℕ)
    → d % ms_per_day ≡ 0
    → utc_day_start e.from_date ≤ d
    → d ≤ utc_day_start e.to_date
    → day_in (exception_days e) d ≡ true
unfolding exception_days
exception_days_complete e d whole from to =
    let start = utc_day_start e.from_date in
    let (_, _, start_whole) = utc_day_start_bounds e.from_date in
    let late : ltb (utc_day_start e.to_date) start ≡ false = ground arith in
    rw late (day_in-days_from start _ ((d - start) / ms_per_day) d (omega arith) (omega arith))

exception_days_bounds :
    (e : CustodyException) (d : ℕ)
    → day_in (exception_days e) d ≡ true
    → (utc_day_start e.from_date ≤ d) × (d < utc_day_start e.to_date + ms_per_day)
unfolding exception_days
exception_days_bounds e d listed =
    elim (Bool-cases (ltb (utc_day_start e.to_date) (utc_day_start e.from_date))) [
      | inl early ↦ absurd (cc (rw early at listed))
      | inr late ↦
          let bounds = days_from_bounds _ _ d (rw late at listed) in
          let ordered : utc_day_start e.from_date ≤ utc_day_start e.to_date = ground arith in
          omega (arith, bounds, ordered)
    ]

module _ (s : Store) where
  -- An acceptance of `e` returns it as accepted and writes that to its row, and afterwards the day `d` has a slot that the
  -- exception wrote, while the slot of workspace `v` on day `c` is what it was.
  pub record Accepts (new_id : ℕ → ℕ) (db : Db s) (ws id d v c : ℕ) (u : Member)
      (remark : Option String) (e : CustodyException) : Type 0 where
    pub after : Db s
    pub returns :
        respond_to_custody_exception s new_id db ws id u true remark
        ≡ ok (some (record e { status = accepted; response_note = remark }), after)
    pub exceptions :
        s.rows after.exceptions
        ≡ update_rows
            (λ r. r.id == e.id)
            (λ r. record r { status = accepted; response_note = remark })
            (s.rows db.exceptions)
    pub written : Excepted e (slot_at e.workspace_id d (s.rows after.slots))
    pub kept : slot_at v c (s.rows after.slots) ≡ slot_at v c (s.rows db.slots)

  -- When the search finds a pending exception, and a parent other than its requester accepts it,
  -- `respondToCustodyException` returns it as accepted with the remark and writes just that to its row; afterwards every day from its first to
  -- its last has a slot with the exception's custodian, source and id, and a slot of another
  -- workspace, or of a day outside the range, is what it was.
  pub accept_applies :
      (new_id : ℕ → ℕ) (db : Db s) (ws id d v c : ℕ) (u : Member) (remark : Option String)
      (e : CustodyException)
      → s.find_first (λ e. e.id == id && e.workspace_id == ws) db.exceptions ≡ some e
      → e.status ≡ pending
      → is_parent u.role ≡ true
      → u.id ≢ e.requester_id
      → d % ms_per_day ≡ 0
      → utc_day_start e.from_date ≤ d
      → d ≤ utc_day_start e.to_date
      → (v ≢ e.workspace_id)
        ⊎ ((c < utc_day_start e.from_date) ⊎ (utc_day_start e.to_date + ms_per_day ≤ c))
      → Accepts new_id db ws id d v c u remark e
  unfolding respond_to_custody_exception answer_found apply_accepted_exception
  accept_applies new_id db ws id d v c u remark e found waits role other whole from to out =
      let not_own : (u.id == e.requester_id) ≡ false = ground (arith, other) in
      let updated = answer s true remark e in
      record {
        after = record db {
          exceptions = s.update_many (λ r. r.id == e.id) (answer s true remark) db.exceptions;
          slots = apply_accepted_exception s new_id updated db.slots;
        };
        returns = rw (found, waits, not_own, role) refl;
        exceptions = s.rows-update_many _ _ _;
        written = rw (rows-upsert_exception new_id updated s (exception_days updated) db.slots) (
            listed-Excepted new_id updated d (exception_days updated) (s.rows db.slots)
              (exception_days_complete updated d whole from to));
        kept = rw (rows-upsert_exception new_id updated s (exception_days updated) db.slots) (
            unlisted_stays new_id updated v c (exception_days updated) (s.rows db.slots)
              (unlisted updated c v out));
      }
    where
      unlisted :
          (e : CustodyException) (c v : ℕ)
          → (v ≢ e.workspace_id)
            ⊎ ((c < utc_day_start e.from_date) ⊎ (utc_day_start e.to_date + ms_per_day ≤ c))
          → (v == e.workspace_id && day_in (exception_days e) c) ≡ false
      unlisted e c v out = elim (Bool-cases (day_in (exception_days e) c)) [
        | inl listed ↦ let b = exception_days_bounds e c listed in ground (arith, b, out)
        | inr miss ↦ ground (arith, miss)
      ]
