-- ===== src/Calendar/Exchange.antt =====
-- A swap seen from outside: the calendar as a function from days to custodians.
use coparentes_backend.Common.{
  ℕ, ◌+◌, ◌%◌, ◌≤◌, ◌≡◌, ◌≢◌, refl, sym, ap, subst, inl, inr, Bool, true, false, Option, none, some,
  List, arith, count, ◌==◌, ==_iff, Bool-cases, Option-cases, if◌then◌else◌, ◌∙◌,
}
use coparentes_backend.Common.Store.{find, update_rows}
use coparentes_backend.Common.Rows.Unique.{find-update_rows, find_hit, unique_eq}
use coparentes_backend.Custody.Dates.{ms_per_day}
use coparentes_backend.Custody.Pattern.{Role, get_custodian_for_date}
use coparentes_backend.Custody.Slots.{Slot, Schedule}
use coparentes_backend.Calendar.Swaps.{on_day, hand_over}

-- Ids are unique, and a day of the workspace has at most one slot (the table's unique index).
pub record IsCalendar (ws : ℕ) (rows : List Slot) : Type 0 where
  pub ids : (k : ℕ) → count (λ r. r.id == k) rows ≤ 1
  pub days : (d : ℕ) → d % ms_per_day ≡ 0 → count (on_day ws d) rows ≤ 1

-- Who cares on a day where the table has no slot.
abbrev pub planned : Option Schedule → ℕ → Option Role
planned none d = none
planned (some sch) d = some (get_custodian_for_date sch.pattern_type sch.start_date sch.weeks d)

abbrev pub shown : Option Schedule → ℕ → Option Slot → Option Role
shown sch d (some sl) = some sl.custodian
shown sch d none = planned sch d

-- Who cares on a day: the custodian of its slot, or else the one that the schedule names.
abbrev pub custodian_of : Option Schedule → ℕ → List Slot → ℕ → Option Role
custodian_of sch ws rows d = shown sch d (find (on_day ws d) rows)

-- Two day starts with a slot in common are the same day.
pub same_day :
    (ws d e : ℕ) (sl : Slot)
    → d % ms_per_day ≡ 0
    → e % ms_per_day ≡ 0
    → on_day ws d sl ≡ true
    → on_day ws e sl ≡ true
    → d ≡ e
same_day ws d e sl wd we hd he =
    let a : (d ≤ sl.date) × (sl.date + 1 ≤ d + ms_per_day) = ground arith in
    let b : (e ≤ sl.date) × (sl.date + 1 ≤ e + ms_per_day) = ground arith in omega (arith, a, b)

-- What a day shows after an exchange of two days with their custodians, by whether it is one of them.
abbrev pub exchanged : Option Role → Option Role → Bool → Bool → Option Role → Option Role
exchanged (some a) (some b) is_first is_second old =
    if is_first then some b else if is_second then some a else old
exchanged _ _ is_first is_second old = old

-- The custodians of two days exchanged, where both are known.
abbrev pub transpose : (ℕ → Option Role) → ℕ → ℕ → ℕ → Option Role
transpose c d e x = exchanged (c d) (c e) (x == d) (x == e) (c x)

module _ (ws : ℕ) (sch : Option Schedule) (rows : List Slot) (valid : IsCalendar ws rows) where
  -- Slots of two days have the same id just when the days are the same.
  same_id_test :
      (d x : ℕ) (a c : Slot)
      → d % ms_per_day ≡ 0
      → x % ms_per_day ≡ 0
      → find (on_day ws d) rows ≡ some a
      → find (on_day ws x) rows ≡ some c
      → (c.id == a.id) ≡ (x == d)
  same_id_test d x a c wd wx ha hc =
      let (on_d, in_a) = find_hit (on_day ws d) rows ha in
      let (on_x, in_c) = find_hit (on_day ws x) rows hc in
      elim (Bool-cases (x == d)) [
        | inl same ↦
            let e : x ≡ d = (==_iff x d).0 same in
            let one : c ≡ a = cc (hc, ha, ap (λ y. find (on_day ws y) rows) e) in
            same_ids c a one ∙ sym same
        | inr other ↦ elim (Bool-cases (c.id == a.id)) [
          | inr differ ↦ differ ∙ sym other
          | inl equal ↦
              let one : c ≡ a =
                unique_eq (λ r. r.id == a.id) rows (valid.ids a.id) in_c in_a equal
                  (same_ids a a refl) in
              let shared : on_day ws x a ≡ true = subst (λ y. on_day ws x y ≡ true) one on_x in
              absurd (ne_of_test other (same_day ws x d a wx wd shared on_d))
        ]
      ]
    where
      same_ids : (c a : Slot) → c ≡ a → (c.id == a.id) ≡ true
      same_ids c a e = (==_iff c.id a.id).1 (ap (λ (y : Slot). y.id) e)

      ne_of_test : {x d : ℕ} → (x == d) ≡ false → x ≢ d
      ne_of_test h e = ground arith

  -- No slot on a day, and one on another: the days differ.
  other_day :
      (d x : ℕ) (a : Slot)
      → find (on_day ws d) rows ≡ some a
      → find (on_day ws x) rows ≡ none
      → (x == d) ≡ false
  other_day d x a ha hx = elim (Bool-cases (x == d)) [
    | inr other ↦ other
    | inl same ↦
        let e : x ≡ d = (==_iff x d).0 same in
        absurd (cc (hx, ha, ap (λ y. find (on_day ws y) rows) e))
  ]

  -- The update of two slots, by the slots that the days have.
  pub swapped :
      (d e x : ℕ) (a b : Slot)
      → d % ms_per_day ≡ 0
      → e % ms_per_day ≡ 0
      → x % ms_per_day ≡ 0
      → find (on_day ws d) rows ≡ some a
      → find (on_day ws e) rows ≡ some b
      → custodian_of sch ws
          (update_rows
            (λ r. r.id == b.id)
            (hand_over a.custodian)
            (update_rows (λ r. r.id == a.id) (hand_over b.custodian) rows))
          x
        ≡ transpose (custodian_of sch ws rows) d e x
  swapped d e x a b wd we wx ha hb = elim (Option-cases (find (on_day ws x) rows)) [
    | inl none_there ↦
        rw
          (
            find-update_rows (on_day ws x) (λ r. r.id == b.id) (hand_over a.custodian)
                (update_rows (λ r. r.id == a.id) (hand_over b.custodian) rows) (λ r. refl),
            find-update_rows (on_day ws x) (λ r. r.id == a.id) (hand_over b.custodian) rows
                (λ r. refl),
            none_there,
            ha,
            hb,
            other_day d x a ha none_there,
            other_day e x b hb none_there,
          )
          refl
    | inr (c, there) ↦
        rw
          (
            find-update_rows (on_day ws x) (λ r. r.id == b.id) (hand_over a.custodian)
                (update_rows (λ r. r.id == a.id) (hand_over b.custodian) rows) (λ r. refl),
            find-update_rows (on_day ws x) (λ r. r.id == a.id) (hand_over b.custodian) rows
                (λ r. refl),
            there,
            ha,
            hb,
          )
          (ground (
            arith,
            same_id_test d x a c wd wx ha there,
            same_id_test e x b c we wx hb there,
            both a b x d e ha hb,
          ))
  ]
    where
      both :
          (a b : Slot) (x d e : ℕ)
          → find (on_day ws d) rows ≡ some a
          → find (on_day ws e) rows ≡ some b
          → d ≡ e
          → a ≡ b
      both a b x d e ha hb same = cc (ha, hb, ap (λ y. find (on_day ws y) rows) same)
