-- ===== src/Common/Rows.antt =====
-- Facts on the rows of a table: what a search finds, and what an update leaves alone.
pub mod Unique
pub mod Views
use mathlib.Core.Path.{◌≡◌, refl, subst, sym, ap}
use mathlib.Core.Bool.{Bool, true, false}
use mathlib.Core.Option.{Option, none, some}
use mathlib.Core.List.{map, List, [], ◌∷◌, ◌++◌, Memᴰ}
use native.Mathlib.Omega.{arith}
use Prim.Native.Nat.{ℕ, ◌+◌, ◌≤◌, ◌<◌}
use mathlib.Core.Logic.{inl, inr, ◌⊎◌}
use mathlib.Core.Bool.{◌&&◌, ◌||◌}
use coparentes_backend.Common.Tests.{if◌then◌else◌, ◌==◌, Bool-cases}
use coparentes_backend.Common.Lists.{filter, All, All-map, length}
use coparentes_backend.Common.Store.{Finds, update_rows}

module _ {ℓ} {A : Type 0} (P : A → Type ℓ) where
  pub All-Mem : {x : A} {xs : List A} → All P xs → Memᴰ x xs → P x
  All-Mem h (Memᴰ.head e) = subst P (sym e) h.0
  All-Mem h (Memᴰ.tail m) = All-Mem h.1 m

module _ {Row : Type 0} where
  -- The only row that matches is the one just added.
  pub Finds-added :
      (p : Row → Bool) (x : Row) (rs : List Row) (o : Option Row)
      → All (λ r. p r ≡ false) rs
      → p x ≡ true
      → Finds p (rs ++ x ∷ []) o
      → o ≡ some x
  Finds-added p x rs none none_old hit h = absurd (not_all rs none_old h)
    where
      not_all :
          (rs : List Row) → All (λ r. p r ≡ false) rs → All (λ r. p r ≡ false) (rs ++ x ∷ []) → ⊥
      not_all [] _ h = cc (hit, h.0)
      not_all (r ∷ rs) q h = not_all rs q.1 h.1
  Finds-added p x rs (some r) none_old hit h = ap some (only rs none_old h.1)
    where
      only : (rs : List Row) → All (λ r. p r ≡ false) rs → Memᴰ r (rs ++ x ∷ []) → r ≡ x
      only [] _ (Memᴰ.head e) = e
      only [] _ (Memᴰ.tail m) = elim m [ ]
      only (y ∷ rs) q (Memᴰ.head e) = absurd (cc (q.0, h.0, ap p e))
      only (y ∷ rs) q (Memᴰ.tail m) = only rs q.1 m

  pub update_rows_none :
      (p : Row → Bool) (f : Row → Row) (rs : List Row)
      → All (λ r. p r ≡ false) rs
      → update_rows p f rs ≡ rs
  update_rows_none p f [] h = refl
  update_rows_none p f (r ∷ rs) h = rw (h.0, update_rows_none p f rs h.1)

  pub update_rows-append :
      (p : Row → Bool) (f : Row → Row) (rs qs : List Row)
      → update_rows p f (rs ++ qs) ≡ update_rows p f rs ++ update_rows p f qs
  update_rows-append p f [] qs = refl
  update_rows-append p f (r ∷ rs) qs =
      ap (λ t. (if p r then f r else r) ∷ t) (update_rows-append p f rs qs)

  pub filter-append :
      (p : Row → Bool) (rs qs : List Row) → filter p (rs ++ qs) ≡ filter p rs ++ filter p qs
  filter-append p [] qs = refl
  filter-append p (r ∷ rs) qs = ground (arith, filter-append p rs qs)

  pub filter_none : (p : Row → Bool) (rs : List Row) → All (λ r. p r ≡ false) rs → filter p rs ≡ []
  filter_none p [] h = refl
  filter_none p (r ∷ rs) h = rw h.0 (filter_none p rs h.1)

  -- No two rows have the same key.
  abbrev pub UniqueBy : (Row → ℕ) → List Row → Type 0
  UniqueBy key [] = Unit
  UniqueBy key (r ∷ rs) = All (λ q. (key q == key r) ≡ false) rs × UniqueBy key rs

  pub length-filter_key :
      (p : Row → Bool) (key : Row → ℕ) (k : ℕ) (rs : List Row)
      → UniqueBy key rs
      → length (filter (λ r. p r && key r == k) rs) ≤ 1
  length-filter_key p key k [] h = omega arith
  length-filter_key p key k (r ∷ rs) h = elim (Bool-cases (p r && key r == k)) [
    | inl hit ↦
        let same : key r ≡ k = ground arith in
        let others =
          All-map _ (λ q. (p q && key q == k) ≡ false) (λ q e. ground (arith, same, e)) rs h.0 in
        rw (hit, filter_none _ rs others) (omega arith)
    | inr miss ↦ rw miss (length-filter_key p key k rs h.1)
  ]

  pub filter_pos :
      (p : Row → Bool) (rs : List Row)
      → 0 < length (filter p rs)
      → (r : Row) × Memᴰ r rs × (p r ≡ true)
  filter_pos p [] h = absurd (omega arith)
  filter_pos p (r ∷ rs) h = elim (Bool-cases (p r)) [
    | inl hit ↦ (r, Memᴰ.head refl, hit)
    | inr miss ↦ let (q, m, e) = filter_pos p rs (rw miss at h) in (q, Memᴰ.tail m, e)
  ]

  pub length-filter_or :
      (p q : Row → Bool) (rs : List Row)
      → length (filter (λ r. p r || q r) rs) ≤ length (filter p rs) + length (filter q rs)
  length-filter_or p q [] = omega arith
  length-filter_or p q (r ∷ rs) = ground (arith, length-filter_or p q rs)

  pub update_rows_added :
      (p : Row → Bool) (f : Row → Row) (rs : List Row) (x : Row)
      → All (λ r. p r ≡ false) rs
      → p x ≡ true
      → update_rows p f (rs ++ x ∷ []) ≡ rs ++ f x ∷ []
  update_rows_added p f rs x old hit =
      rw (update_rows-append p f rs (x ∷ []), update_rows_none p f rs old, hit)

  pub mem-update_rows :
      (p : Row → Bool) (f : Row → Row) (rs : List Row) {r : Row}
      → p r ≡ false
      → Memᴰ r rs
      → Memᴰ r (update_rows p f rs)
  mem-update_rows p f [] miss m = elim m [ ]
  mem-update_rows p f (x ∷ rs) {r} miss (Memᴰ.head e) =
      let same : p x ≡ false = subst (λ y. p y ≡ false) e miss in rw same (Memᴰ.head e)
  mem-update_rows p f (x ∷ rs) miss (Memᴰ.tail m) = Memᴰ.tail (mem-update_rows p f rs miss m)

  pub mem-append_last : (rs qs : List Row) {r : Row} → Memᴰ r rs → Memᴰ r (rs ++ qs)
  mem-append_last [] qs m = elim m [ ]
  mem-append_last (x ∷ rs) qs (Memᴰ.head e) = Memᴰ.head e
  mem-append_last (x ∷ rs) qs (Memᴰ.tail m) = Memᴰ.tail (mem-append_last rs qs m)

  pub mem-filter_of :
      (p : Row → Bool) (rs : List Row) {r : Row} → p r ≡ true → Memᴰ r rs → Memᴰ r (filter p rs)
  mem-filter_of p [] hit m = elim m [ ]
  mem-filter_of p (x ∷ rs) hit (Memᴰ.head e) =
      let same : p x ≡ true = subst (λ y. p y ≡ true) e hit in rw same (Memᴰ.head e)
  mem-filter_of p (x ∷ rs) hit (Memᴰ.tail m) = elim (Bool-cases (p x)) [
    | inl e ↦ rw e (Memᴰ.tail (mem-filter_of p rs hit m))
    | inr e ↦ rw e (mem-filter_of p rs hit m)
  ]

  pub mem-update_rows_hit :
      (p : Row → Bool) (f : Row → Row) (rs : List Row) {r : Row}
      → p r ≡ true
      → Memᴰ r rs
      → Memᴰ (f r) (update_rows p f rs)
  mem-update_rows_hit p f [] hit m = elim m [ ]
  mem-update_rows_hit p f (x ∷ rs) {r} hit (Memᴰ.head e) =
      let same : p x ≡ true = subst (λ y. p y ≡ true) e hit in rw same (Memᴰ.head (ap f e))
  mem-update_rows_hit p f (x ∷ rs) hit (Memᴰ.tail m) = Memᴰ.tail (mem-update_rows_hit p f rs hit m)

  mem_cons : {r x : Row} {rs : List Row} → Memᴰ r (x ∷ rs) → (r ≡ x) ⊎ Memᴰ r rs
  mem_cons (Memᴰ.head e) = inl e
  mem_cons (Memᴰ.tail m) = inr m

  pub mem-filter_sound :
      (p : Row → Bool) (rs : List Row) {r : Row} → Memᴰ r (filter p rs) → (p r ≡ true) × Memᴰ r rs
  mem-filter_sound p [] m = elim m [ ]
  mem-filter_sound p (x ∷ rs) {r} m = elim (Bool-cases (p x)) [
    | inr miss ↦ let h = mem-filter_sound p rs (rw miss at m) in (h.0, Memᴰ.tail h.1)
    | inl hit ↦ elim (mem_cons (rw hit at m)) [
      | inl e ↦ (subst (λ y. p y ≡ true) (sym e) hit, Memᴰ.head e)
      | inr later ↦ let h = mem-filter_sound p rs later in (h.0, Memᴰ.tail h.1)
    ]
  ]

module _ {A B : Type 0} where
  pub mem-map : (f : A → B) (xs : List A) {x : A} → Memᴰ x xs → Memᴰ (f x) (map f xs)
  mem-map f [] m = elim m [ ]
  mem-map f (y ∷ xs) (Memᴰ.head e) = Memᴰ.head (ap f e)
  mem-map f (y ∷ xs) (Memᴰ.tail m) = Memᴰ.tail (mem-map f xs m)

module _ {A : Type 0} where
  pub length_pos : (xs : List A) {x : A} → Memᴰ x xs → 0 < length xs
  length_pos [] m = elim m [ ]
  length_pos (y ∷ xs) m = omega arith

  pub mem_added : (xs : List A) (x : A) → Memᴰ x (xs ++ x ∷ [])
  mem_added [] x = Memᴰ.head refl
  mem_added (y ∷ xs) x = Memᴰ.tail (mem_added xs x)
