-- ===== src/Finances/Children.antt =====
-- Why the count that `assertChildrenInWorkspace` compares is enough: with one row for each child id,
-- as many rows as asked ids means that every asked id has its row.
use mathlib.Core.List.{Memᴰ}
use coparentes_backend.Common.{
  ℕ, ◌+◌, ◌≤◌, ◌≡◌, refl, inl, inr, Bool, ◌&&◌, List, [], ◌∷◌, arith, All, length, filter, dedup,
  mem_id, ◌==◌, ok, sym, subst, ◌⊎◌,
}
use coparentes_backend.Common.Rows.{UniqueBy, length-filter_key, filter_pos}
use coparentes_backend.Common.Store.{Store}
use coparentes_backend.Finances.Expenses.{Child, Db, same_count, assert_children_in_workspace}

abbrev in_workspace : ℕ → Child → Bool
in_workspace ws ch = ch.workspace_id == ws

abbrev pub child_key : Child → ℕ
child_key ch = ch.id

abbrev asked_rows : ℕ → List ℕ → List Child → List Child
asked_rows ws ids = filter (λ ch. in_workspace ws ch && mem_id ch.id ids)

-- Some row of the workspace has the id.
abbrev pub IsChild : ℕ → List Child → ℕ → Type 0
IsChild ws rs id = (ch : Child) × Memᴰ ch rs × (ch.workspace_id ≡ ws) × (ch.id ≡ id)

split_ids :
    (ws id : ℕ) (ids : List ℕ) (rs : List Child)
    → length (asked_rows ws (id ∷ ids) rs)
      ≤ length (filter (λ ch. in_workspace ws ch && ch.id == id) rs) + length (asked_rows ws ids rs)
split_ids ws id ids [] = omega arith
split_ids ws id ids (r ∷ rs) = ground (arith, split_ids ws id ids rs)

length-asked_rows-le :
    (ws : ℕ) (ids : List ℕ) (rs : List Child)
    → UniqueBy child_key rs
    → length (asked_rows ws ids rs) ≤ length ids
length-asked_rows-le ws [] rs u = no_rows rs
  where
    no_rows : (rs : List Child) → length (asked_rows ws [] rs) ≤ 0
    no_rows [] = omega arith
    no_rows (r ∷ rs) = ground (arith, no_rows rs)
length-asked_rows-le ws (id ∷ ids) rs u = omega (
  arith,
  split_ids ws id ids rs,
  length-filter_key (in_workspace ws) child_key id rs u,
  length-asked_rows-le ws ids rs u,
)

All-children :
    (ws : ℕ) (ids : List ℕ) (rs : List Child)
    → UniqueBy child_key rs
    → length (asked_rows ws ids rs) ≡ length ids
    → All (IsChild ws rs) ids
All-children ws [] rs u e = tt
All-children ws (id ∷ ids) rs u e =
    let rest = length-asked_rows-le ws ids rs u in
    let one = length-filter_key (in_workspace ws) child_key id rs u in
    let (ch, listed, hit) =
      filter_pos (λ ch. in_workspace ws ch && ch.id == id) rs
        (omega (arith, e, rest, split_ids ws id ids rs)) in
    (
      (ch, listed, ground arith, ground arith),
      All-children ws ids rs u (omega (arith, e, rest, one, split_ids ws id ids rs)),
    )

same_count_cases :
    (us vs : List ℕ) (n : ℕ) → same_count us n ≡ ok vs → (us ≡ vs) × ((us ≡ []) ⊎ (n ≡ length us))
unfolding same_count
same_count_cases [] vs n e = (cc, inl refl)
same_count_cases (x ∷ us) vs n e = ground arith

module _ (s : Store) {Amount : Type 0} where
  -- Where child ids are unique, the ids that the check lets through are the asked ones without
  -- repetition, each the id of a child of the workspace.
  pub assert_children_sound :
      (db : Db s Amount) (ws : ℕ) (ids us : List ℕ)
      → UniqueBy child_key (s.rows db.children)
      → assert_children_in_workspace s db ws ids ≡ ok us
      → (us ≡ dedup ids) × All (IsChild ws (s.rows db.children)) us
  unfolding assert_children_in_workspace
  assert_children_sound db ws ids us u e =
      let (same, counted) = same_count_cases (dedup ids) us _ e in
      (
        sym same,
        subst (All (IsChild ws (s.rows db.children))) same (elim counted [
          | inl nothing ↦ rw nothing tt
          | inr n ↦ All-children ws (dedup ids) (s.rows db.children) u (
              rw
                (s.find_many-rows (λ ch. in_workspace ws ch && mem_id ch.id (dedup ids))
                  db.children)
                at n)
        ]),
      )
