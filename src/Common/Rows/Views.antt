-- ===== src/Common/Rows/Views.antt =====
-- What is found after a deletion or an upsert, where a key picks at most one row.
use coparentes_backend.Common.Store.{find, upsert_rows}
use mathlib.Core.Path.{◌≡◌, refl}
use mathlib.Core.Bool.{Bool, true, false, not}
use mathlib.Core.Option.{Option, none, some}
use mathlib.Core.List.{List, [], ◌∷◌}
use mathlib.Core.Logic.{inl, inr}
use native.Mathlib.Omega.{arith}
use Prim.Native.Nat.{◌≤◌}
use coparentes_backend.Common.Tests.{if◌then◌else◌, Bool-cases, Option-cases, is_some}
use coparentes_backend.Common.Lists.{filter, any, count}
use coparentes_backend.Common.Rows.Unique.{
  find_hit, find-update_rows, count-update_rows, find-append_one, count-append_one,
  count_of_find-none,
}

module _ {Row : Type 0} where
  pub find-filter_same :
      (q : Row → Bool) (rs : List Row) → find q (filter (λ r. not (q r)) rs) ≡ none
  find-filter_same q [] = refl
  find-filter_same q (r ∷ rs) = elim (Bool-cases (q r)) [
    | inl e ↦ rw e (find-filter_same q rs)
    | inr e ↦ rw (e, e) (find-filter_same q rs)
  ]

  pub find-filter_other :
      (p q : Row → Bool) (rs : List Row)
      → ((r : Row) → p r ≡ true → q r ≡ false)
      → find p (filter (λ r. not (q r)) rs) ≡ find p rs
  find-filter_other p q [] apart = refl
  find-filter_other p q (r ∷ rs) apart = elim (Bool-cases (p r)) [
    | inl e ↦ rw (apart r e, e) refl
    | inr e ↦ elim (Bool-cases (q r)) [
      | inl gone ↦ rw (gone, e) (find-filter_other p q rs apart)
      | inr kept ↦ rw (kept, e) (find-filter_other p q rs apart)
    ]
  ]

  pub count-filter-le : (p q : Row → Bool) (rs : List Row) → count p (filter q rs) ≤ count p rs
  count-filter-le p q [] = omega arith
  count-filter-le p q (r ∷ rs) = elim (Bool-cases (q r)) [
    | inl e ↦ rw e (omega (arith, count-filter-le p q rs))
    | inr e ↦ rw e (omega (arith, count-filter-le p q rs))
  ]

  any-find : (p : Row → Bool) (rs : List Row) → any p rs ≡ is_some (find p rs)
  any-find p [] = refl
  any-find p (r ∷ rs) = elim (Bool-cases (p r)) [ inl e ↦ rw e refl | inr e ↦ rw e (any-find p rs) ]

  -- The row that an upsert leaves under its own key.
  abbrev pub upserted : (Row → Row) → Row → Option Row → Row
  upserted f new none = new
  upserted f new (some old) = f old

  pub find-upsert_same :
      (p : Row → Bool) (f : Row → Row) (new : Row) (rs : List Row)
      → ((r : Row) → p (f r) ≡ p r)
      → p new ≡ true
      → find p (upsert_rows p f new rs) ≡ some (upserted f new (find p rs))
  find-upsert_same p f new rs keeps own = elim (Option-cases (find p rs)) [
    | inl fresh ↦ rw (any-find p rs, fresh, find-append_one p rs new, fresh, own) refl
    | inr (r, old) ↦
        rw (any-find p rs, old, find-update_rows p p f rs keeps, old, (find_hit p rs old).0) refl
  ]

  pub find-upsert_other :
      (p q : Row → Bool) (f : Row → Row) (new : Row) (rs : List Row)
      → ((r : Row) → p (f r) ≡ p r)
      → ((r : Row) → p r ≡ true → q r ≡ false)
      → p new ≡ false
      → find p (upsert_rows q f new rs) ≡ find p rs
  find-upsert_other p q f new rs keeps apart other = elim (Bool-cases (any q rs)) [
    | inr fresh ↦
        rw (fresh, find-append_one p rs new)
          elim (Option-cases (find p rs)) [
            | inl miss ↦ rw (miss, other) refl
            | inr (r, hit) ↦ rw hit refl
          ]
    | inl old ↦
        rw (old, find-update_rows p q f rs keeps)
          elim (Option-cases (find p rs)) [
            | inl miss ↦ rw miss refl
            | inr (r, hit) ↦ rw (hit, apart r (find_hit p rs hit).0) refl
          ]
  ]

  pub count-upsert_same :
      (p : Row → Bool) (f : Row → Row) (new : Row) (rs : List Row)
      → ((r : Row) → p (f r) ≡ p r)
      → count p rs ≤ 1
      → count p (upsert_rows p f new rs) ≤ 1
  count-upsert_same p f new rs keeps one = elim (Option-cases (find p rs)) [
    | inl fresh ↦
        rw (any-find p rs, fresh, count-append_one p rs new)
          (omega (arith, count_of_find-none p rs fresh, one_or_none (p new)))
    | inr (r, old) ↦ rw (any-find p rs, old, count-update_rows p p f rs keeps) one
  ]
    where
      one_or_none : (b : Bool) → (if b then 1 else 0) ≤ 1
      one_or_none b = ground arith

  pub count-upsert_other :
      (p q : Row → Bool) (f : Row → Row) (new : Row) (rs : List Row)
      → ((r : Row) → p (f r) ≡ p r)
      → p new ≡ false
      → count p (upsert_rows q f new rs) ≡ count p rs
  count-upsert_other p q f new rs keeps other = elim (Bool-cases (any q rs)) [
    | inr fresh ↦ rw (fresh, count-append_one p rs new, other) (omega arith)
    | inl old ↦ rw old (count-update_rows p q f rs keeps)
  ]
