-- ===== src/Common/Rows/Unique.antt =====
-- Searches and updates where a test picks at most one row.
use mathlib.Core.Path.{◌≡◌, refl, subst, sym, ap}
use mathlib.Core.Bool.{Bool, true, false}
use mathlib.Core.Option.{Option, none, some}
use mathlib.Core.List.{List, [], ◌∷◌, ◌++◌, Memᴰ}
use mathlib.Core.Logic.{◌≢◌, inl, inr}
use native.Mathlib.Omega.{arith}
use Prim.Native.Nat.{◌+◌, ◌≤◌}
use coparentes_backend.Common.Tests.{leb, if◌then◌else◌, Bool-cases}
use coparentes_backend.Common.Lists.{All, count}
use coparentes_backend.Common.Store.{Finds, find, update_rows}

module _ {Row : Type 0} where
  pub count_zero : (p : Row → Bool) (rs : List Row) → All (λ r. p r ≡ false) rs → count p rs ≡ 0
  count_zero p [] h = refl
  count_zero p (r ∷ rs) h = ground (arith, count_zero p rs)

  pub find-none : (p : Row → Bool) (rs : List Row) → All (λ r. p r ≡ false) rs → find p rs ≡ none
  find-none p [] h = refl
  find-none p (r ∷ rs) h = ground (arith, find-none p rs)

  pub count_mem :
      (p : Row → Bool) (rs : List Row) {r : Row} → Memᴰ r rs → p r ≡ true → 1 ≤ count p rs
  count_mem p [] m e = elim m [ ]
  count_mem p (x ∷ rs) (Memᴰ.head h) e =
      let f : p x ≡ true = subst (λ y. p y ≡ true) h e in rw f (omega arith)
  count_mem p (x ∷ rs) (Memᴰ.tail m) e = omega (arith, count_mem p rs m e)

  -- Two rows that pass a test which at most one row passes are the same.
  pub unique_eq :
      (p : Row → Bool) (rs : List Row) {a b : Row}
      → count p rs ≤ 1
      → Memᴰ a rs
      → Memᴰ b rs
      → p a ≡ true
      → p b ≡ true
      → a ≡ b
  unique_eq p [] one ma mb ea eb = elim ma [ ]
  unique_eq p (x ∷ rs) one (Memᴰ.head ha) (Memᴰ.head hb) ea eb = cc
  unique_eq p (x ∷ rs) one (Memᴰ.head ha) (Memᴰ.tail mb) ea eb =
      let f : p x ≡ true = subst (λ y. p y ≡ true) ha ea in
      let c = count_mem p rs mb eb in absurd (omega (arith, c, (rw f at one)))
  unique_eq p (x ∷ rs) one (Memᴰ.tail ma) (Memᴰ.head hb) ea eb =
      let f : p x ≡ true = subst (λ y. p y ≡ true) hb eb in
      let c = count_mem p rs ma ea in absurd (omega (arith, c, (rw f at one)))
  unique_eq p (x ∷ rs) one (Memᴰ.tail ma) (Memᴰ.tail mb) ea eb =
      unique_eq p rs (omega (arith, one)) ma mb ea eb

  pub find_hit :
      (p : Row → Bool) (rs : List Row) {r : Row} → find p rs ≡ some r → (p r ≡ true) × Memᴰ r rs
  find_hit p [] e = cc
  find_hit p (x ∷ rs) {r} e = elim (Bool-cases (p x)) [
    | inl hit ↦
        let same : x ≡ r = cc (rw hit at e) in
        (subst (λ y. p y ≡ true) same hit, Memᴰ.head (sym same))
    | inr miss ↦ let h = find_hit p rs (rw miss at e) in (h.0, Memᴰ.tail h.1)
  ]

  pub find-some :
      (p : Row → Bool) (rs : List Row) {r : Row}
      → count p rs ≤ 1
      → Memᴰ r rs
      → p r ≡ true
      → find p rs ≡ some r
  find-some p [] one m e = elim m [ ]
  find-some p (x ∷ rs) one (Memᴰ.head h) e =
      let f : p x ≡ true = subst (λ y. p y ≡ true) h e in rw f (ap some (sym h))
  find-some p (x ∷ rs) {r} one (Memᴰ.tail m) e = elim (Bool-cases (p x)) [
    | inl hit ↦ absurd (omega (arith, count_mem p rs m e, (rw hit at one)))
    | inr miss ↦ rw miss (find-some p rs (omega (arith, one)) m e)
  ]

  -- What the database finds is determined where at most one row matches.
  pub Finds-find :
      (p : Row → Bool) (rs : List Row) (o : Option Row)
      → count p rs ≤ 1
      → Finds p rs o
      → o ≡ find p rs
  Finds-find p rs none one h = sym (find-none p rs h)
  Finds-find p rs (some r) one h = sym (find-some p rs one h.1 h.0)

  -- An update that leaves the test of a search alone changes what is found where it applies.
  pub find-update_rows :
      (p q : Row → Bool) (f : Row → Row) (rs : List Row)
      → ((r : Row) → p (f r) ≡ p r)
      → find p (update_rows q f rs)
        ≡ elim (find p rs) [ none ↦ none | some r ↦ some (if q r then f r else r) ]
  find-update_rows p q f [] keeps = refl
  find-update_rows p q f (r ∷ rs) keeps = ground (arith, keeps r, find-update_rows p q f rs keeps)

  pub count-update_rows :
      (p q : Row → Bool) (f : Row → Row) (rs : List Row)
      → ((r : Row) → p (f r) ≡ p r)
      → count p (update_rows q f rs) ≡ count p rs
  count-update_rows p q f [] keeps = refl
  count-update_rows p q f (r ∷ rs) keeps = ground (arith, keeps r, count-update_rows p q f rs keeps)

  pub find-append_one :
      (p : Row → Bool) (rs : List Row) (x : Row)
      → find p (rs ++ x ∷ [])
        ≡ elim (find p rs) [ some r ↦ some r | none ↦ if p x then some x else none ]
  find-append_one p [] x = refl
  find-append_one p (r ∷ rs) x = ground (arith, find-append_one p rs x)

  pub count-append_one :
      (p : Row → Bool) (rs : List Row) (x : Row)
      → count p (rs ++ x ∷ []) ≡ count p rs + (if p x then 1 else 0)
  count-append_one p [] x = omega arith
  count-append_one p (r ∷ rs) x = omega (arith, count-append_one p rs x)

  pub count_of_find-none : (p : Row → Bool) (rs : List Row) → find p rs ≡ none → count p rs ≡ 0
  count_of_find-none p [] e = refl
  count_of_find-none p (r ∷ rs) e = elim (Bool-cases (p r)) [
    | inl hit ↦ cc (rw hit at e)
    | inr miss ↦ rw miss (omega (arith, count_of_find-none p rs (rw miss at e)))
  ]

  -- Two rows that differ and pass a test are counted twice.
  pub count_two :
      (p : Row → Bool) (rs : List Row) {a b : Row}
      → Memᴰ a rs
      → Memᴰ b rs
      → p a ≡ true
      → p b ≡ true
      → a ≢ b
      → 2 ≤ count p rs
  count_two p rs ma mb ea eb other = elim (Bool-cases (leb (count p rs) 1)) [
    | inl few ↦ absurd (other (unique_eq p rs (ground (arith, few)) ma mb ea eb))
    | inr many ↦ ground (arith, many)
  ]
