-- ===== src/Threads/KeySet.antt =====
-- Which lists of users the check of thread keys accepts.
use coparentes_backend.Common.{
  ℕ, ◌≤◌, ◌<◌, ◌≡◌, ◌≢◌, ◌↔◌, refl, sym, ap, subst, inl, inr, true, false, not, List, [], ◌∷◌,
  filter, length, mem_id, ◌==◌, ==_iff, Bool-cases, arith, ok,
}
use coparentes_backend.Threads.{all_different, all_in, check_thread_keys}

abbrev remove : ℕ → List ℕ → List ℕ
remove x = filter (λ y. not (x == y))

mem-remove :
    (x y : ℕ) (ys : List ℕ) → (x == y) ≡ false → mem_id y ys ≡ true → mem_id y (remove x ys) ≡ true
mem-remove x y [] e h = cc
mem-remove x y (z ∷ ys) e h = ground (arith, e, h, mem-remove x y ys e)

length-remove : (x : ℕ) (ys : List ℕ) → mem_id x ys ≡ true → length (remove x ys) < length ys
length-remove x [] h = cc
length-remove x (y ∷ ys) h = ground (arith, h, length-remove x ys, length_rest x ys)
  where
    length_rest : (x : ℕ) (ys : List ℕ) → length (remove x ys) ≤ length ys
    length_rest x [] = omega arith
    length_rest x (y ∷ ys) = ground (arith, length_rest x ys)

-- Every member of a list is one of another.
abbrev pub Within : List ℕ → List ℕ → Type 0
Within xs ys = (u : ℕ) → mem_id u xs ≡ true → mem_id u ys ≡ true

remove-Within :
    (x : ℕ) (xs ys : List ℕ) → mem_id x xs ≡ false → Within xs ys → Within xs (remove x ys)
remove-Within x xs ys out w u h = elim (Bool-cases (x == u)) [
  | inl same ↦ absurd (cc (out, h, (==_iff x u).0 same))
  | inr other ↦ mem-remove x u ys other (w u h)
]

Within-tail : (x : ℕ) (xs ys : List ℕ) → Within (x ∷ xs) ys → Within xs ys
Within-tail x xs ys w u h = w u (ground (arith, h))

member_head : (x : ℕ) (xs : List ℕ) → mem_id x (x ∷ xs) ≡ true
member_head x xs = ground arith

-- A list without repetitions is at most as long as a list it lies in.
length-Within : (xs ys : List ℕ) → all_different xs ≡ true → Within xs ys → length xs ≤ length ys
length-Within [] ys d w = omega arith
length-Within (x ∷ xs) ys d w =
    let out : mem_id x xs ≡ false = ground (arith, d) in
    let rest =
      length-Within xs (remove x ys) (ground (arith, d))
        (remove-Within x xs ys out (Within-tail x xs ys w)) in
    omega (arith, rest, length-remove x ys (w x (member_head x xs)))

-- It has every member of a list that is no longer.
Within-back :
    (xs ys : List ℕ) → all_different xs ≡ true → Within xs ys → length xs ≡ length ys → Within ys xs
Within-back xs ys d w e u h = elim (Bool-cases (mem_id u xs)) [
  | inl here ↦ here
  | inr out ↦ absurd (
      omega (
        arith,
        e,
        length-Within xs (remove u ys) d (remove-Within u xs ys out w),
        length-remove u ys h,
      ))
]

all_in-Within : (xs ys : List ℕ) → all_in ys xs ≡ true → Within xs ys
all_in-Within [] ys a u h = cc
all_in-Within (x ∷ xs) ys a u h = elim (Bool-cases (u == x)) [
  | inl same ↦
      let e = (==_iff u x).0 same in subst (λ v. mem_id v ys ≡ true) (sym e) (ground (arith, a))
  | inr other ↦ all_in-Within xs ys (ground (arith, a)) u (rw other at h)
]

Within-all_in : (xs ys : List ℕ) → Within xs ys → all_in ys xs ≡ true
Within-all_in [] ys w = refl
Within-all_in (x ∷ xs) ys w =
    rw (w x (member_head x xs), Within-all_in xs ys (Within-tail x xs ys w)) refl

checked :
    (required provided : List ℕ)
    → check_thread_keys required provided ≡ ok tt
    → ((length provided == 0) ≡ false)
      × (all_different provided ≡ true)
      × ((length provided == length required) ≡ true)
      × (all_in required provided ≡ true)
unfolding check_thread_keys
checked required provided e = elim (Bool-cases (length provided == 0)) [
  | inl empty ↦ absurd (cc (rw empty at e))
  | inr given ↦ elim (Bool-cases (all_different provided)) [
    | inr twice ↦ absurd (cc (rw (given, twice) at e))
    | inl once ↦ elim (Bool-cases (length provided == length required)) [
      | inr other ↦ absurd (cc (rw (given, once, other) at e))
      | inl same ↦ elim (Bool-cases (all_in required provided)) [
        | inr strange ↦ absurd (cc (rw (given, once, same, strange) at e))
        | inl known ↦ (given, once, same, known)
      ]
    ]
  ]
]

not_empty : (xs : List ℕ) → xs ≢ [] → (length xs == 0) ≡ false
not_empty [] n = absurd (n refl)
not_empty (x ∷ xs) n = ground arith

accepted :
    (required provided : List ℕ)
    → all_different required ≡ true
    → provided ≢ []
    → all_different provided ≡ true
    → Within provided required
    → Within required provided
    → check_thread_keys required provided ≡ ok tt
unfolding check_thread_keys
accepted required provided d given once into back =
    let short = length-Within provided required once into in
    let long = length-Within required provided d back in
    let same : (length provided == length required) ≡ true =
      (==_iff _ _).1 (omega (arith, short, long)) in
    rw (not_empty provided given, once, same, Within-all_in provided required into) refl

-- `assertValidParentThreadKeys` accepts exactly the lists of keys that are not empty, name no user twice, and name all
-- the parents of the workspace and nobody else, in any order. The workspace's list of parents has no repetition.
pub check_keys_iff :
    (required provided : List ℕ)
    → all_different required ≡ true
    → (check_thread_keys required provided ≡ ok tt) ↔ (
        (provided ≢ [])
        × (all_different provided ≡ true)
        × ((u : ℕ) → (mem_id u provided ≡ true) ↔ (mem_id u required ≡ true)))
check_keys_iff required provided d = (
  λ e.
      let (given, once, same, known) = checked required provided e in
      let into = all_in-Within provided required known in
      (
        λ empty. absurd (cc (given, ap (λ xs. length xs == 0) empty)),
        once,
        λ u. (into u, Within-back provided required once into ((==_iff _ _).0 same) u),
      ),
  λ h. accepted required provided d h.0 h.1 (λ u. (h.2 u).0) (λ u. (h.2 u).1),
)
