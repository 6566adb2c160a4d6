-- ===== src/Accounts/Family.antt =====
-- The accounts of a workspace as a list: what each way to write them keeps, and at most one active account for each
-- parent's role.
use coparentes_backend.Common.{
  ℕ, ◌≤◌, ◌≡◌, refl, subst, inl, inr, Bool, true, false, none, some, List, [], ◌∷◌, ◌++◌, count,
  arith, All, ◌==◌, ==_iff, is_some, Bool-cases,
}
use coparentes_backend.Common.Store.{update_rows}
use coparentes_backend.Common.Rows.Unique.{count_zero, count-append_one}
use coparentes_backend.Custody.Pattern.{Role, parent_a, parent_b, child, same_role}
use coparentes_backend.Accounts.{Account}
use coparentes_backend.Accounts.Joining.{holds}

abbrev pub is_deleted : Account → Bool
is_deleted u = is_some u.deleted_at

abbrev pub in_workspace : ℕ → Account → Bool
in_workspace ws u = elim u.workspace_id [ none ↦ false | some w ↦ w == ws ]

-- What the operations on accounts keep: a new account of a child, closed accounts, a new parentA of a workspace that
-- nobody belongs to, and a new parentB where no active parentB was found.
pub record Keeps (Inv : List Account → Type 0) : Type 0 where
  pub child_added : (us : List Account) (u : Account) → u.role ≡ child → Inv us → Inv (us ++ u ∷ [])
  pub closed :
      (q : Account → Bool) (f : Account → Account) (us : List Account)
      → ((u : Account) → is_deleted (f u) ≡ true)
      → Inv us
      → Inv (update_rows q f us)
  pub founder_added :
      (us : List Account) (u : Account) (ws : ℕ)
      → Inv us
      → u.role ≡ parent_a
      → u.workspace_id ≡ some ws
      → All (λ x. in_workspace ws x ≡ false) us
      → Inv (us ++ u ∷ [])
  pub parent_added :
      (us : List Account) (u : Account) (ws : ℕ)
      → Inv us
      → u.role ≡ parent_b
      → u.workspace_id ≡ some ws
      → All (λ x. holds parent_b ws x ≡ false) us
      → Inv (us ++ u ∷ [])

-- Each parent's role is held by at most one active account of a workspace.
pub record IsFamily (us : List Account) : Type 0 where
  pub one_a : (w : ℕ) → count (holds parent_a w) us ≤ 1
  pub one_b : (w : ℕ) → count (holds parent_b w) us ≤ 1

-- Nobody holds a role that a new account holds.
abbrev pub Vacant : Role → List Account → Account → Type 0
Vacant role us u = (w : ℕ) → holds role w u ≡ true → count (holds role w) us ≡ 0

one_added :
    (role : Role) (us : List Account) (u : Account) (w : ℕ)
    → count (holds role w) us ≤ 1
    → Vacant role us u
    → count (holds role w) (us ++ u ∷ []) ≤ 1
one_added role us u w one free =
    rw (count-append_one (holds role w) us u) elim (Bool-cases (holds role w u)) [
      | inl h ↦ rw (h, free w h) (omega arith)
      | inr h ↦ rw h (omega (arith, one))
    ]

IsFamily-added :
    (us : List Account) (u : Account)
    → IsFamily us
    → Vacant parent_a us u
    → Vacant parent_b us u
    → IsFamily (us ++ u ∷ [])
IsFamily-added us u f a b = record {
  one_a = λ w. one_added parent_a us u w (f.one_a w) a;
  one_b = λ w. one_added parent_b us u w (f.one_b w) b;
}

pub one_closed :
    (role : Role) (w : ℕ) (q : Account → Bool) (f : Account → Account) (us : List Account)
    → ((u : Account) → holds role w (f u) ≡ false)
    → count (holds role w) (update_rows q f us) ≤ count (holds role w) us
one_closed role w q f [] gone = omega arith
one_closed role w q f (u ∷ us) gone = elim (Bool-cases (q u)) [
  | inl e ↦ rw (e, gone u) (omega (arith, one_closed role w q f us gone))
  | inr e ↦ rw e (omega (arith, one_closed role w q f us gone))
]

pub no_role : (role : Role) (w : ℕ) (u : Account) → is_deleted u ≡ true → holds role w u ≡ false
no_role role w u e = ground (arith, e)

IsFamily-closed :
    (q : Account → Bool) (f : Account → Account) (us : List Account)
    → ((u : Account) → is_deleted (f u) ≡ true)
    → IsFamily us
    → IsFamily (update_rows q f us)
IsFamily-closed q f us gone h = record {
  one_a = λ w.
      let c = one_closed parent_a w q f us (λ u. no_role parent_a w (f u) (gone u)) in
      omega (arith, c, h.one_a w);
  one_b = λ w.
      let c = one_closed parent_b w q f us (λ u. no_role parent_b w (f u) (gone u)) in
      omega (arith, c, h.one_b w);
}

pub child-Vacant :
    (role : Role) (us : List Account) (u : Account)
    → same_role u.role role ≡ false
    → Vacant role us u
child-Vacant role us u e w h = absurd (ground (arith, e, h))

IsFamily-child :
    (us : List Account) (u : Account) → u.role ≡ child → IsFamily us → IsFamily (us ++ u ∷ [])
IsFamily-child us u e f =
    IsFamily-added us u f (child-Vacant parent_a us u (rw e refl))
      (child-Vacant parent_b us u (rw e refl))

pub nobody_holds :
    (role : Role) (w : ℕ) (us : List Account)
    → All (λ x. in_workspace w x ≡ false) us
    → count (holds role w) us ≡ 0
nobody_holds role w [] h = refl
nobody_holds role w (u ∷ us) h = ground (arith, h.0, nobody_holds role w us h.1)

pub holds_in :
    (role : Role) (u : Account) (ws w : ℕ)
    → u.workspace_id ≡ some ws
    → holds role w u ≡ true
    → ws ≡ w
holds_in role u ws w e h = let k = rw e at h in (==_iff _ _).0 (ground (arith, k))

-- A new parentB where no active parentB was found.
parent_added-IsFamily :
    (us : List Account) (u : Account) (ws : ℕ)
    → IsFamily us
    → u.role ≡ parent_b
    → u.workspace_id ≡ some ws
    → All (λ x. holds parent_b ws x ≡ false) us
    → IsFamily (us ++ u ∷ [])
parent_added-IsFamily us u ws f r e none_b =
    IsFamily-added us u f (child-Vacant parent_a us u (rw r refl)) (λ w h.
      subst (λ k. count (holds parent_b k) us ≡ 0) (holds_in parent_b u ws w e h)
        (count_zero (holds parent_b ws) us none_b))

-- A new parentA of a workspace that nobody belongs to.
founder_added-IsFamily :
    (us : List Account) (u : Account) (ws : ℕ)
    → IsFamily us
    → u.role ≡ parent_a
    → u.workspace_id ≡ some ws
    → All (λ x. in_workspace ws x ≡ false) us
    → IsFamily (us ++ u ∷ [])
founder_added-IsFamily us u ws f r e nobody =
    IsFamily-added us u f
      (λ w h.
        subst (λ k. count (holds parent_a k) us ≡ 0) (holds_in parent_a u ws w e h)
          (nobody_holds parent_a ws us nobody))
      (child-Vacant parent_b us u (rw r refl))

pub IsFamily-Keeps : Keeps IsFamily
IsFamily-Keeps = record {
  child_added = IsFamily-child;
  closed = IsFamily-closed;
  founder_added = founder_added-IsFamily;
  parent_added = parent_added-IsFamily;
}
