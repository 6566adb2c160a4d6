-- ===== src/Crypto/Payload/Colons.antt =====
-- Splitting a text at its colons undoes joining texts that have none.
use Prim.Native.Char.{code}
use Prim.Native.String
use Prim.Native.String.append
use coparentes_backend.Common.{◌≡◌, refl, inl, inr, true, String, [], ◌∷◌, ◌==◌, Bool-cases}
use coparentes_backend.Crypto.Payload.{has_no_colon, split_colons}

pub split_colons_last : (d : String) → has_no_colon d ≡ true → split_colons d ≡ (d, [])
unfolding has_no_colon split_colons
split_colons_last String.[] h = refl
split_colons_last (String.◌∷◌ c s) h = elim (Bool-cases (code c == 58)) [
  | inl colon ↦ absurd (cc (rw colon at h))
  | inr other ↦ rw (other, split_colons_last s (rw other at h)) refl
]

colon_first :
    (s : String) → split_colons (String.◌++◌ ":" s) ≡ ("", (split_colons s).0 ∷ (split_colons s).1)
unfolding split_colons
colon_first s = rw (append.cons ":" "" s, append.nil s) refl

pub split_colons-append :
    (a s : String)
    → has_no_colon a ≡ true
    → split_colons (String.◌++◌ a (String.◌++◌ ":" s))
      ≡ (a, (split_colons s).0 ∷ (split_colons s).1)
unfolding has_no_colon split_colons
split_colons-append String.[] s h = rw (append.nil (String.◌++◌ ":" s)) (colon_first s)
split_colons-append (String.◌∷◌ c a) s h = elim (Bool-cases (code c == 58)) [
  | inl colon ↦ absurd (cc (rw colon at h))
  | inr other ↦
      rw (append.cons c a (String.◌++◌ ":" s), other, split_colons-append a s (rw other at h)) refl
]
