-- ===== src/Logins/ChildLogin.antt =====
-- Which child a login by name and date of birth lets in.
use mathlib.Core.List.{Memᴰ}
use coparentes_backend.Common.{
  ℕ, ◌≡◌, refl, sym, ap, subst, ◌∙◌, inl, inr, Bool, true, Option, some, String, List, [], ◌∷◌,
  filter, ltb, Bool-cases, Option-cases, Result-cases, ok, ok_injective, arith,
}
use coparentes_backend.Common.Store.{Store}
use coparentes_backend.Common.Rows.{mem-filter_sound, mem-filter_of}
use coparentes_backend.Crypto.{Cipher}
use coparentes_backend.Accounts.{Account, Platform}
use coparentes_backend.Accounts.Joining.{
  ChildProfile, linked_account, is_same_calendar_day, normalize_date_of_birth,
}
use coparentes_backend.Logins.{
  LoginDb, Folding, is_open_child, goes_by, is_match, only_account, authenticate_child_login,
}

mem_only : {x y : ChildProfile} → Memᴰ x (y ∷ []) → x ≡ y
mem_only (Memᴰ.head e) = e
mem_only (Memᴰ.tail m) = elim m [ ]

module _ (s : Store) (p : Platform) (f : Folding) (c : Cipher) where
  -- The child behind a login: its day of birth, its open account, the account's name and password; no other child with an open account
  -- has this day and name.
  pub record LetsIn (db : LoginDb s) (login : String) (dob : ℕ) (password : String) (u : Account)
      : Type 0 where
    pub profile : ChildProfile
    pub listed : Memᴰ profile (s.rows db.children)
    pub account : linked_account s db.accounts.users profile.id ≡ some u
    pub active : is_open_child s p f c (some u) ≡ true
    pub day : is_same_calendar_day profile.date_of_birth dob ≡ true
    pub name : goes_by s p f c (f.trim login) (some u) ≡ true
    pub password_fits : p.compare password u.password_hash ≡ true
    pub alone :
        (r : ChildProfile)
        → Memᴰ r (s.rows db.children)
        → is_open_child s p f c (linked_account s db.accounts.users r.id) ≡ true
        → is_match s p f c db.accounts.users (f.trim login) dob r ≡ true
        → r ≡ profile

  one_account :
      (users : s.Table Account) (rs : List ChildProfile) (u : Account)
      → only_account s p f c users rs ≡ ok u
      → (r : ChildProfile) × (rs ≡ r ∷ []) × (linked_account s users r.id ≡ some u)
  one_account users [] u e = cc
  one_account users (r ∷ []) u e = elim (Option-cases (linked_account s users r.id)) [
    | inl gone ↦ absurd (cc (rw gone at e))
    | inr (v, found) ↦ (r, refl, found ∙ ap some (ok_injective (rw found at e)))
  ]
  one_account users (r ∷ q ∷ rs) u e = cc

  abbrev matches : LoginDb s → String → ℕ → List ChildProfile
  matches db login dob = filter (is_match s p f c db.accounts.users (f.trim login) dob) (
      s.find_many
        (λ (r : ChildProfile). is_open_child s p f c (linked_account s db.accounts.users r.id))
        db.children)

  matched-LetsIn :
      (db : LoginDb s) (login : String) (dob : ℕ) (password : String) (u : Account)
      → only_account s p f c db.accounts.users (matches db login dob) ≡ ok u
      → p.compare password u.password_hash ≡ true
      → LetsIn db login dob password u
  matched-LetsIn db login dob password u e right =
      let (r, only, linked) = one_account db.accounts.users (matches db login dob) u e in
      let here : Memᴰ r (matches db login dob) = rw only (Memᴰ.head refl) in
      let candidate : ChildProfile → Bool =
        λ k. is_open_child s p f c (linked_account s db.accounts.users k.id) in
      let fits : ChildProfile → Bool = is_match s p f c db.accounts.users (f.trim login) dob in
      let (match, m) = mem-filter_sound fits (s.find_many candidate db.children) here in
      let (active, listed) =
        mem-filter_sound candidate (s.rows db.children)
          (subst (Memᴰ r) (s.find_many-rows candidate db.children) m) in
      record {
        profile = r;
        listed = listed;
        account = linked;
        active = rw linked at active;
        day = ground (arith, match);
        name = ground (arith, (rw linked at match));
        password_fits = right;
        alone = λ q there is_active is_like. mem_only (
            subst (Memᴰ q) only (
              mem-filter_of fits _ is_like (
                subst (Memᴰ q) (sym (s.find_many-rows candidate db.children))
                  (mem-filter_of candidate (s.rows db.children) is_active there))));
      }

  -- A call of `authenticateChildLogin` that returns an account found a child of the given day of birth whose linked account is a child's that was
  -- not closed, goes by the given name and has the given password, and no other such child has this day and name.
  pub child_login-LetsIn :
      (db : LoginDb s) (login : String) (date_of_birth : Option ℕ) (password : String) (u : Account)
      → authenticate_child_login s p f c db login date_of_birth password ≡ ok u
      → (dob : ℕ) × (normalize_date_of_birth date_of_birth ≡ some dob)
        × LetsIn db login dob password u
  unfolding authenticate_child_login
  child_login-LetsIn db login date_of_birth password u e =
      elim (Option-cases (normalize_date_of_birth date_of_birth)) [
        | inl gone ↦ absurd (cc (rw gone at e))
        | inr (dob, born) ↦ elim (Bool-cases (ltb (p.length (f.trim login)) 2)) [
          | inl short ↦ absurd (cc (rw (born, short) at e))
          | inr long ↦
              elim (Result-cases (only_account s p f c db.accounts.users (matches db login dob))) [
                | inl (code, bad) ↦ absurd (cc (rw (born, long, bad) at e))
                | inr (v, good) ↦ elim (Bool-cases (p.compare password v.password_hash)) [
                  | inr wrong ↦ absurd (cc (rw (born, long, good, wrong) at e))
                  | inl right ↦
                      let same : v ≡ u = ok_injective (rw (born, long, good, right) at e) in
                      (
                        dob,
                        born,
                        subst (LetsIn db login dob password) same
                            (matched-LetsIn db login dob password v good right),
                      )
                ]
              ]
        ]
      ]
