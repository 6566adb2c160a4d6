-- ===== src/Accounts/Parents.antt =====
-- How many active parents a workspace has: two at most, also where both are parentB.
use coparentes_backend.Common.{
  ℕ, ◌+◌, ◌≤◌, ◌≡◌, refl, ◌∙◌, subst, inl, inr, Bool, true, false, not, ◌&&◌, List, [], ◌∷◌, ◌++◌,
  map, filter, count, length, arith, is_some, Bool-cases, if◌then◌else◌,
}
use coparentes_backend.Common.Rows.Unique.{count_zero, count-append_one}
use coparentes_backend.Custody.Pattern.{
  Role, parent_a, parent_b, child, observer, is_parent, same_role,
}
use coparentes_backend.Accounts.{Account}
use coparentes_backend.Accounts.Joining.{holds, is_active_parent}
use coparentes_backend.Accounts.Family.{
  Keeps, in_workspace, one_closed, no_role, holds_in, nobody_holds,
}

parent_split :
    (b : Bool) (r : Role) (d : Bool)
    → (if b && (is_parent r && d) then 1 else 0)
      ≡ (if b && (same_role r parent_a && d) then 1 else 0)
        + (if b && (same_role r parent_b && d) then 1 else 0)
parent_split b parent_a d = ground arith
parent_split b parent_b d = ground arith
parent_split b child d = ground arith
parent_split b observer d = ground arith

-- The active parents are those who hold one of the two roles.
pub count-parents :
    (w : ℕ) (us : List Account)
    → count (is_active_parent w) us ≡ count (holds parent_a w) us + count (holds parent_b w) us
count-parents w [] = refl
count-parents w (u ∷ us) =
    omega (
      arith,
      count-parents w us,
      parent_split (in_workspace w u) u.role (not (is_some u.deleted_at)),
    )

length-filter-count :
    (p : Account → Bool) (us : List Account)
    → length (map (λ (u : Account). u.id) (filter p us)) ≡ count p us
length-filter-count p [] = refl
length-filter-count p (u ∷ us) = elim (Bool-cases (p u)) [
  | inl e ↦ rw e (omega (arith, length-filter-count p us))
  | inr e ↦ rw e (omega (arith, length-filter-count p us))
]

pub length-parents :
    (w : ℕ) (us : List Account)
    → length (map (λ (u : Account). u.id) (filter (is_active_parent w) us))
      ≡ count (holds parent_a w) us + count (holds parent_b w) us
length-parents w us = length-filter-count (is_active_parent w) us ∙ count-parents w us

-- At most one active parentA and at most two active parents in a workspace.
pub record IsSmall (us : List Account) : Type 0 where
  pub one_a : (w : ℕ) → count (holds parent_a w) us ≤ 1
  pub two : (w : ℕ) → count (holds parent_a w) us + count (holds parent_b w) us ≤ 2

-- A new account keeps the bounds where it finds room for its role.
IsSmall-added :
    (us : List Account) (u : Account)
    → IsSmall us
    → ((w : ℕ)
        → holds parent_a w u ≡ true
        → count (holds parent_a w) us + count (holds parent_b w) us ≡ 0)
    → ((w : ℕ)
        → holds parent_b w u ≡ true
        → count (holds parent_a w) us + count (holds parent_b w) us ≤ 1)
    → IsSmall (us ++ u ∷ [])
IsSmall-added us u h a b = record {
  one_a = λ w.
      rw (count-append_one (holds parent_a w) us u) elim (Bool-cases (holds parent_a w u)) [
        | inl e ↦ rw e (omega (arith, a w e))
        | inr e ↦ rw e (omega (arith, h.one_a w))
      ];
  two = λ w.
      rw (count-append_one (holds parent_a w) us u, count-append_one (holds parent_b w) us u)
        elim (Bool-cases (holds parent_a w u)) [
          | inl e ↦ elim (Bool-cases (holds parent_b w u)) [
            | inl e' ↦ rw (e, e') (omega (arith, a w e))
            | inr e' ↦ rw (e, e') (omega (arith, a w e))
          ]
          | inr e ↦ elim (Bool-cases (holds parent_b w u)) [
            | inl e' ↦ rw (e, e') (omega (arith, b w e'))
            | inr e' ↦ rw (e, e') (omega (arith, h.two w))
          ]
        ];
}

not_held :
    (role : Role) (w : ℕ) (u : Account) → same_role u.role role ≡ false → holds role w u ≡ false
not_held role w u e = ground (arith, e)

pub IsSmall-Keeps : Keeps IsSmall
IsSmall-Keeps = record {
  child_added = λ us u r h.
      IsSmall-added us u h (λ w e. absurd (cc (e, not_held parent_a w u (rw r refl))))
        (λ w e. absurd (cc (e, not_held parent_b w u (rw r refl))));
  closed = λ q f us gone h. record {
    one_a = λ w.
        let c = one_closed parent_a w q f us (λ u. no_role parent_a w (f u) (gone u)) in
        omega (arith, c, h.one_a w);
    two = λ w.
        let c = one_closed parent_a w q f us (λ u. no_role parent_a w (f u) (gone u)) in
        let d = one_closed parent_b w q f us (λ u. no_role parent_b w (f u) (gone u)) in
        omega (arith, c, d, h.two w);
  };
  founder_added = λ us u ws h r e nobody.
      IsSmall-added us u h
        (λ w held.
          subst (λ k. count (holds parent_a k) us + count (holds parent_b k) us ≡ 0)
            (holds_in parent_a u ws w e held)
            (omega (arith, nobody_holds parent_a ws us nobody, nobody_holds parent_b ws us nobody)))
        (λ w held. absurd (cc (held, not_held parent_b w u (rw r refl))));
  parent_added = λ us u ws h r e none_b.
      IsSmall-added us u h (λ w held. absurd (cc (held, not_held parent_a w u (rw r refl))))
        (λ w held.
          subst (λ k. count (holds parent_a k) us + count (holds parent_b k) us ≤ 1)
            (holds_in parent_b u ws w e held)
            (omega (arith, h.one_a ws, count_zero (holds parent_b ws) us none_b)));
}
