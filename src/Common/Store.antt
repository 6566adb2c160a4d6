-- ===== src/Common/Store.antt =====
-- The database client, which is not part of the program: a record of the table operations that the
-- services call, with what they rely on as laws over the rows that a table holds. `rows` lists
-- them oldest first.
use mathlib.Core.Path.{◌≡◌, refl}
use mathlib.Core.Bool.{Bool, true, false, not}
use mathlib.Core.Logic.{inl, inr}
use mathlib.Core.Option.{Option, none, some}
use mathlib.Core.List.{List, [], ◌∷◌, ◌++◌, map, Memᴰ}
use coparentes_backend.Common.Tests.{if◌then◌else◌, Bool-cases}
use coparentes_backend.Common.Lists.{filter, any, All}

-- What `findFirst` and `findUnique` promise: a row that matches, or that none does.
abbrev pub Finds : {Row : Type 0} → (Row → Bool) → List Row → Option Row → Type 0
Finds p rs none = All (λ r. p r ≡ false) rs
Finds p rs (some r) = (p r ≡ true) × Memᴰ r rs

abbrev pub update_rows : {Row : Type 0} → (Row → Bool) → (Row → Row) → List Row → List Row
update_rows p f = map (λ r. if p r then f r else r)

abbrev pub upsert_rows : {Row : Type 0} → (Row → Bool) → (Row → Row) → Row → List Row → List Row
upsert_rows p f r rs = if any p rs then update_rows p f rs else rs ++ r ∷ []

pub record Store : Type 1 where
  pub Table : Type 0 → Type 0
  pub rows : {Row : Type 0} → Table Row → List Row
  pub find_first : {Row : Type 0} → (Row → Bool) → Table Row → Option Row
  pub find_many : {Row : Type 0} → (Row → Bool) → Table Row → List Row
  pub update_many : {Row : Type 0} → (Row → Bool) → (Row → Row) → Table Row → Table Row
  pub delete_many : {Row : Type 0} → (Row → Bool) → Table Row → Table Row
  pub create : {Row : Type 0} → Row → Table Row → Table Row
  -- `upsert(p, f, r)`: update what matches, or add the row.
  pub upsert : {Row : Type 0} → (Row → Bool) → (Row → Row) → Row → Table Row → Table Row
  pub find_first-Finds :
      {Row : Type 0} (p : Row → Bool) (t : Table Row) → Finds p (rows t) (find_first p t)
  pub find_many-rows :
      {Row : Type 0} (p : Row → Bool) (t : Table Row) → find_many p t ≡ filter p (rows t)
  pub rows-update_many :
      {Row : Type 0} (p : Row → Bool) (f : Row → Row) (t : Table Row)
      → rows (update_many p f t) ≡ update_rows p f (rows t)
  pub rows-delete_many :
      {Row : Type 0} (p : Row → Bool) (t : Table Row)
      → rows (delete_many p t) ≡ filter (λ r. not (p r)) (rows t)
  pub rows-create : {Row : Type 0} (r : Row) (t : Table Row) → rows (create r t) ≡ rows t ++ r ∷ []
  pub rows-upsert :
      {Row : Type 0} (p : Row → Bool) (f : Row → Row) (r : Row) (t : Table Row)
      → rows (upsert p f r t) ≡ upsert_rows p f r (rows t)

module _ {Row : Type 0} where
  abbrev pub find : (Row → Bool) → List Row → Option Row
  find p [] = none
  find p (r ∷ rs) = if p r then some r else find p rs

  Finds-cons :
      (p : Row → Bool) (x : Row) (rs : List Row) (o : Option Row)
      → p x ≡ false
      → Finds p rs o
      → Finds p (x ∷ rs) o
  Finds-cons p x rs none e h = (e, h)
  Finds-cons p x rs (some r) e h = (h.0, Memᴰ.tail h.1)

  pub find-Finds : (p : Row → Bool) (rs : List Row) → Finds p rs (find p rs)
  find-Finds p [] = tt
  find-Finds p (r ∷ rs) = elim (Bool-cases (p r)) [
    | inl e ↦ rw e (e, Memᴰ.head refl)
    | inr e ↦ rw e (Finds-cons p r rs (find p rs) e (find-Finds p rs))
  ]

-- Tables as lists of rows, which meet the laws.
abbrev pub list_store : Store
list_store = record {
  Table = λ Row. List Row;
  rows = λ t. t;
  find_first = find;
  find_many = filter;
  update_many = update_rows;
  delete_many = λ p. filter (λ r. not (p r));
  create = λ r t. t ++ r ∷ [];
  upsert = upsert_rows;
  find_first-Finds = find-Finds;
  find_many-rows = λ p t. refl;
  rows-update_many = λ p f t. refl;
  rows-delete_many = λ p t. refl;
  rows-create = λ r t. refl;
  rows-upsert = λ p f r t. refl;
}
