-- ===== src/Calendar/Transposition.antt =====
-- `respondToSwapRequest` with `accepted`, against its specification: two days of the calendar exchanged.
use coparentes_backend.Common.{
  ℕ, ◌%◌, ◌≤◌, ◌≡◌, ◌≢◌, refl, sym, ap, subst, true, false, ◌&&◌, Option, none, some, String, List,
  arith, count, ◌==◌, ==_iff, ◌∙◌, ok, ok_injective,
}
use coparentes_backend.Common.Store.{Store, find, update_rows}
use coparentes_backend.Common.Rows.Unique.{Finds-find, find-update_rows, count-update_rows}
use coparentes_backend.Custody.Dates.{ms_per_day, utc_day_start}
use coparentes_backend.Custody.Dates.Laws.{utc_day_start_bounds}
use coparentes_backend.Custody.Pattern.{Role, is_parent}
use coparentes_backend.Custody.Slots.{Slot, Schedule, Member}
use coparentes_backend.Custody.Persistence.{get_active_or_pending_schedule}
use coparentes_backend.Calendar.Swaps.{
  Db, SwapRequest, accepted, on_day, hand_over, ensure_slot, exchange, apply_accepted_swap,
  swap_found, respond_to_swap_request, answer_swap,
}
use coparentes_backend.Calendar.Exchange.{IsCalendar, custodian_of, transpose, exchanged, swapped}
use coparentes_backend.Calendar.Accept.{Settles, Ensures, ensure_slot-Ensures}

transpose_pointwise :
    (c c' : ℕ → Option Role) (d e x : ℕ)
    → c d ≡ c' d
    → c e ≡ c' e
    → c x ≡ c' x
    → transpose c d e x ≡ transpose c' d e x
transpose_pointwise c c' d e x hd he hx = rw (hd, he, hx) refl

transpose_twice : (c : ℕ → Option Role) (d e x : ℕ) → transpose (transpose c d e) d e x ≡ c x
transpose_twice c d e x = values (c d) (c e) (c x) d e x (λ h. ap c h) (λ h. ap c h) (λ h. ap c h)
  where
    values :
        (a b v : Option Role) (d e x : ℕ)
        → (x ≡ d → v ≡ a)
        → (x ≡ e → v ≡ b)
        → (d ≡ e → a ≡ b)
        → exchanged
            (exchanged a b (d == d) (d == e) a)
            (exchanged a b (e == d) (e == e) b)
            (x == d)
            (x == e)
            (exchanged a b (x == d) (x == e) v)
          ≡ v
    values none b v d e x first second both = refl
    values (some a) none v d e x first second both = refl
    values (some a) (some b) v d e x first second both = ground (arith, first, second, both)

-- The second search leaves what the first one found.
still_Settles :
    (ws d e id : ℕ) (sch : Option Schedule) (old rows : List Slot) (o o' : Option Slot)
    → Settles ws sch d old o
    → Ensures ws sch e id old rows o'
    → d % ms_per_day ≡ 0
    → Settles ws sch d rows o
still_Settles ws d e id sch old rows none o' h step whole = step.kept d whole ∙ h
still_Settles ws d e id sch old rows (some a) o' h step whole = step.stays d a h

module _ (s : Store) (ws : ℕ) where
  exchange-IsCalendar :
      (t : s.Table Slot) (a b : Option Slot)
      → IsCalendar ws (s.rows t)
      → IsCalendar ws (s.rows (exchange s t a b))
  unfolding exchange
  exchange-IsCalendar t none b valid = valid
  exchange-IsCalendar t (some a) none valid = valid
  exchange-IsCalendar t (some a) (some b) valid =
      rw (s.rows-update_many, s.rows-update_many)
        (handed _ b.id a.custodian (handed (s.rows t) a.id b.custodian valid))
    where
      handed :
          (rows : List Slot) (k : ℕ) (c : Role)
          → IsCalendar ws rows
          → IsCalendar ws (update_rows (λ r. r.id == k) (hand_over c) rows)
      handed rows k c valid = record {
        ids = λ j.
            rw (count-update_rows (λ r. r.id == j) (λ r. r.id == k) (hand_over c) rows (λ r. refl))
              (valid.ids j);
        days = λ d whole.
            rw (count-update_rows (on_day ws d) (λ r. r.id == k) (hand_over c) rows (λ r. refl))
              (valid.days d whole);
      }

  exchange-transpose :
      (t : s.Table Slot) (sch : Option Schedule) (d e x : ℕ) (a b : Option Slot)
      → IsCalendar ws (s.rows t)
      → d % ms_per_day ≡ 0
      → e % ms_per_day ≡ 0
      → x % ms_per_day ≡ 0
      → Settles ws sch d (s.rows t) a
      → Settles ws sch e (s.rows t) b
      → custodian_of sch ws (s.rows (exchange s t a b)) x
        ≡ transpose (custodian_of sch ws (s.rows t)) d e x
  unfolding exchange
  exchange-transpose t sch d e x none b valid wd we wx ha hb = rw ha refl
  exchange-transpose t sch d e x (some a) none valid wd we wx ha hb = rw (ha, hb) refl
  exchange-transpose t sch d e x (some a) (some b) valid wd we wx ha hb =
      rw (s.rows-update_many, s.rows-update_many)
        (swapped ws sch (s.rows t) valid d e x a b wd we wx ha hb)

  -- Both slots are looked up, or made, before the exchange.
  apply-transpose :
      (db : Db s) (id id' original proposed x : ℕ)
      → IsCalendar ws (s.rows db.slots)
      → count (λ r. r.id == id) (s.rows db.slots) ≡ 0
      → count (λ r. r.id == id') (s.rows db.slots) ≡ 0
      → id ≢ id'
      → x % ms_per_day ≡ 0
      → let sch = get_active_or_pending_schedule s db.schedules ws in
        IsCalendar ws (s.rows (apply_accepted_swap s db id id' ws original proposed))
        × (custodian_of sch ws (s.rows (apply_accepted_swap s db id id' ws original proposed)) x
            ≡ transpose
                (custodian_of sch ws (s.rows db.slots))
                (utc_day_start original)
                (utc_day_start proposed)
                x)
  unfolding apply_accepted_swap
  apply-transpose db id id' original proposed x valid fresh fresh' ne whole =
      let sch = get_active_or_pending_schedule s db.schedules ws in
      let d = utc_day_start original in
      let e = utc_day_start proposed in
      let wd = (utc_day_start_bounds original).2 in
      let we = (utc_day_start_bounds proposed).2 in
      let t1 = (ensure_slot s db.slots id ws original sch).1 in
      let one = ensure_slot-Ensures ws s db.slots id original sch valid fresh in
      let two =
        ensure_slot-Ensures ws s t1 id' proposed sch one.valid
          (one.ids id' (λ h. ne (sym h)) ∙ fresh') in
      let first = still_Settles ws d e id' sch _ _ _ _ one.settles two wd in
      (
        exchange-IsCalendar _ _ _ two.valid,
        exchange-transpose _ sch d e x _ _ two.valid wd we whole first two.settles
            ∙ transpose_pointwise
                (custodian_of sch ws (s.rows (ensure_slot s t1 id' ws proposed sch).1))
                (custodian_of sch ws (s.rows db.slots)) d e x (two.kept d wd ∙ one.kept d wd)
                (two.kept e we ∙ one.kept e we) (two.kept x whole ∙ one.kept x whole),
      )

  -- Who cares on the day of an instant, as the calendar of the database shows it.
  abbrev pub day_of : Db s → ℕ → Option Role
  day_of db d =
      custodian_of (get_active_or_pending_schedule s db.schedules ws) ws (s.rows db.slots) d

  -- An acceptance returns the answered request, keeps the table's indexes, and exchanges the two days.
  pub record Exchanges (db : Db s) (id id' swap_id : ℕ) (u : Member) (remark : Option String)
      (r : SwapRequest) : Type 0 where
    pub after : Db s
    pub returns :
        respond_to_swap_request s db id id' ws swap_id u accepted remark
        ≡ ok (some (answer_swap s accepted remark r), after)
    pub swaps :
        s.rows after.swaps
        ≡ update_rows (λ y. y.id == r.id) (answer_swap s accepted remark) (s.rows db.swaps)
    pub valid : IsCalendar ws (s.rows after.slots)
    pub exchanges :
        (x : ℕ)
        → day_of after (utc_day_start x)
          ≡ transpose
              (day_of db)
              (utc_day_start r.original_date)
              (utc_day_start r.proposed_date)
              (utc_day_start x)

  -- When the search finds a request and a parent other than its requester accepts it, `respondToSwapRequest` returns,
  -- and on every day the calendar shows the custodian it showed before with the two days of the request
  -- exchanged; where one of them has neither a slot nor a schedule nothing changes. The new ids
  -- are not in use, ids are unique and a day has at most one slot, before and after.
  pub accept-Exchanges :
      (db : Db s) (id id' swap_id : ℕ) (u : Member) (remark : Option String) (r : SwapRequest)
      → s.find_first (λ y. y.id == swap_id && y.workspace_id == ws) db.swaps ≡ some r
      → is_parent u.role ≡ true
      → u.id ≢ r.requester_id
      → IsCalendar ws (s.rows db.slots)
      → count (λ y. y.id == id) (s.rows db.slots) ≡ 0
      → count (λ y. y.id == id') (s.rows db.slots) ≡ 0
      → id ≢ id'
      → Exchanges db id id' swap_id u remark r
  unfolding respond_to_swap_request swap_found
  accept-Exchanges db id id' swap_id u remark r found role other valid fresh fresh' ne =
      let not_own : (u.id == r.requester_id) ≡ false = ground (arith, other) in
      let applied = λ (x : ℕ).
        apply-transpose db id id' r.original_date r.proposed_date (utc_day_start x) valid fresh
          fresh' ne (utc_day_start_bounds x).2 in
      record {
        after = record db {
          slots = apply_accepted_swap s db id id' ws r.original_date r.proposed_date;
          swaps = s.update_many (λ y. y.id == r.id) (answer_swap s accepted remark) db.swaps;
        };
        returns = rw (found, not_own, role) refl;
        swaps = s.rows-update_many _ _ _;
        valid = (applied 0).0;
        exchanges = λ x. (applied x).1;
      }

  -- The answered request is found again under its id.
  found_again :
      (t t' : s.Table SwapRequest) (swap_id : ℕ) (remark : Option String) (r : SwapRequest)
      → count (λ y. y.id == swap_id && y.workspace_id == ws) (s.rows t) ≤ 1
      → s.find_first (λ y. y.id == swap_id && y.workspace_id == ws) t ≡ some r
      → s.rows t' ≡ update_rows (λ y. y.id == r.id) (answer_swap s accepted remark) (s.rows t)
      → s.find_first (λ y. y.id == swap_id && y.workspace_id == ws) t'
        ≡ some (answer_swap s accepted remark r)
  found_again t t' swap_id remark r one found after =
      let p = λ (y : SwapRequest). y.id == swap_id && y.workspace_id == ws in
      let q = λ (y : SwapRequest). y.id == r.id in
      let before : find p (s.rows t) ≡ some r =
        sym (Finds-find p (s.rows t) _ one (s.find_first-Finds p t)) ∙ found in
      let itself : (r.id == r.id) ≡ true = (==_iff r.id r.id).1 refl in
      let still : count p (s.rows t') ≤ 1 =
        rw (after, count-update_rows p q (answer_swap s accepted remark) (s.rows t) (λ y. refl))
          one in
      Finds-find p (s.rows t') _ still (s.find_first-Finds p t')
      ∙ rw
          (
            after,
            find-update_rows p q (answer_swap s accepted remark) (s.rows t) (λ y. refl),
            before,
            itself,
          )
          refl

  -- What a second acceptance finds and leaves.
  pub record Undoes (db db' : Db s) (id id' swap_id : ℕ) (u : Member) (remark : Option String)
      (r : SwapRequest) : Type 0 where
    pub last : Db s
    pub returns :
        respond_to_swap_request s db' id id' ws swap_id u accepted remark
        ≡ ok (some (answer_swap s accepted remark r), last)
    pub restores : (x : ℕ) → day_of last (utc_day_start x) ≡ day_of db (utc_day_start x)

  -- A request that was accepted can be accepted again: `db'` is the database after an acceptance, and the
  -- second call returns the same answer and undoes the exchange, so that the calendar shows on every day what it
  -- showed before the first one, although the request counts as accepted. The new ids of each call are
  -- not in use, and at most one request has the id.
  pub accept_twice-Undoes :
      (db db' : Db s) (id id' j j' swap_id : ℕ) (u : Member) (remark : Option String)
      (r : SwapRequest)
      → count (λ y. y.id == swap_id && y.workspace_id == ws) (s.rows db.swaps) ≤ 1
      → s.find_first (λ y. y.id == swap_id && y.workspace_id == ws) db.swaps ≡ some r
      → is_parent u.role ≡ true
      → u.id ≢ r.requester_id
      → IsCalendar ws (s.rows db.slots)
      → count (λ y. y.id == id) (s.rows db.slots) ≡ 0
      → count (λ y. y.id == id') (s.rows db.slots) ≡ 0
      → id ≢ id'
      → respond_to_swap_request s db id id' ws swap_id u accepted remark
        ≡ ok (some (answer_swap s accepted remark r), db')
      → count (λ y. y.id == j) (s.rows db'.slots) ≡ 0
      → count (λ y. y.id == j') (s.rows db'.slots) ≡ 0
      → j ≢ j'
      → Undoes db db' j j' swap_id u remark r
  accept_twice-Undoes db db' id id' j j' swap_id u remark r one found role other valid fresh fresh'
        ne first free free' ne' =
      let once =
        accept-Exchanges db id id' swap_id u remark r found role other valid fresh fresh' ne in
      let same : once.after ≡ db' = ap (λ t. t.1) (ok_injective (sym once.returns ∙ first)) in
      let old =
        subst
          (λ (d : Db s).
            s.rows d.swaps
            ≡ update_rows (λ y. y.id == r.id) (answer_swap s accepted remark) (s.rows db.swaps))
          same once.swaps in
      let indexed = subst (λ (d : Db s). IsCalendar ws (s.rows d.slots)) same once.valid in
      let again =
        accept-Exchanges db' j j' swap_id u remark (answer_swap s accepted remark r)
          (found_again db.swaps db'.swaps swap_id remark r one found old) role other indexed free
          free' ne' in
      let d = utc_day_start r.original_date in
      let e = utc_day_start r.proposed_date in
      let moved = λ (x : ℕ).
        subst
          (λ (b : Db s). day_of b (utc_day_start x) ≡ transpose (day_of db) d e (utc_day_start x))
          same (once.exchanges x) in
      record {
        last = again.after;
        returns = again.returns;
        restores = λ x.
            again.exchanges x
            ∙ transpose_pointwise (day_of db') (transpose (day_of db) d e) d e (utc_day_start x)
                (moved r.original_date) (moved r.proposed_date) (moved x)
            ∙ transpose_twice (day_of db) d e (utc_day_start x);
      }
