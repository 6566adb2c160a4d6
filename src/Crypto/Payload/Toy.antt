-- ===== src/Crypto/Payload/Toy.antt =====
-- A `Gcm` over texts, which meets its laws: bytes are texts, a tag names the key and the vector, and base64url escapes colons.
use Prim.Native.Char.{Char, code}
use Prim.Native.String
use Prim.Native.String.compare
use text.Mathlib.TextEquality.{Char-path}
use coparentes_backend.Common.{
  ◌≡◌, refl, inl, inr, Bool, true, false, none, some, String, str_eq, eq_iff, ◌==◌, ==_iff,
  Bool-cases, if◌then◌else◌,
}
use coparentes_backend.Crypto.Payload.{Gcm, has_no_colon}

-- `%` begins an escape: `%c` is a colon, `%p` a percent sign.
unfoldable pub escape : String → String
escape String.[] = ""
escape (String.◌∷◌ c s) =
    if code c == 58
    then String.◌∷◌ "%" (String.◌∷◌ "c" (escape s))
    else if code c == 37
    then String.◌∷◌ "%" (String.◌∷◌ "p" (escape s))
    else String.◌∷◌ c (escape s)

-- The flag tells that an escape has begun.
unfoldable pub unescape : Bool → String → String
unescape begun String.[] = ""
unescape true (String.◌∷◌ c s) = String.◌∷◌ (if code c == 99 then ":" else "%") (unescape false s)
unescape false (String.◌∷◌ c s) =
    if code c == 37 then unescape true s else String.◌∷◌ c (unescape false s)

pub unescape-escape : (s : String) → unescape false (escape s) ≡ s
unfolding escape unescape
unescape-escape String.[] = refl
unescape-escape (String.◌∷◌ c s) = elim (Bool-cases (code c == 58)) [
  | inl colon ↦
      let same : c ≡ ":" = Char-path c ":" ((==_iff _ _).0 colon) in
      rw (colon, unescape-escape s, same) refl
  | inr no_colon ↦ elim (Bool-cases (code c == 37)) [
    | inl percent ↦
        let same : c ≡ "%" = Char-path c "%" ((==_iff _ _).0 percent) in
        rw (no_colon, percent, unescape-escape s, same) refl
    | inr other ↦ rw (no_colon, other, other, unescape-escape s) refl
  ]
]

pub escape-has_no_colon : (s : String) → has_no_colon (escape s) ≡ true
unfolding escape has_no_colon
escape-has_no_colon String.[] = refl
escape-has_no_colon (String.◌∷◌ c s) = elim (Bool-cases (code c == 58)) [
  | inl colon ↦ rw colon (escape-has_no_colon s)
  | inr no_colon ↦ elim (Bool-cases (code c == 37)) [
    | inl percent ↦ rw (no_colon, percent) (escape-has_no_colon s)
    | inr other ↦ rw (no_colon, other, no_colon) (escape-has_no_colon s)
  ]
]

-- A text with a character is not empty.
pub cons_filled : (c : Char) (s : String) → str_eq (String.◌∷◌ c s) "" ≡ false
cons_filled c s = rw (compare.cons-nil c s) refl

pub escape_filled : (s : String) → str_eq s "" ≡ false → str_eq (escape s) "" ≡ false
unfolding escape
escape_filled String.[] h = absurd (cc (h, (eq_iff "" "").1 refl))
escape_filled (String.◌∷◌ c s) h = elim (Bool-cases (code c == 58)) [
  | inl colon ↦ rw colon (cons_filled _ _)
  | inr no_colon ↦ elim (Bool-cases (code c == 37)) [
    | inl percent ↦ rw (no_colon, percent) (cons_filled _ _)
    | inr other ↦ rw (no_colon, other) (cons_filled _ _)
  ]
]

abbrev pub toy_tag : String → String → String
toy_tag key iv = String.◌∷◌ "t" (String.◌++◌ key iv)

abbrev pub toy_gcm : Gcm
toy_gcm = record {
  Bytes = String;
  env = λ name. name;
  trim = λ x. x;
  from_base64 = λ x. x;
  byte_length = λ b. 32;
  to_base64url = escape;
  from_base64url = unescape false;
  encipher = λ key iv x. (x, toy_tag key iv);
  decipher = λ key iv tag x. if str_eq tag (toy_tag key iv) then some x else none;
  decipher-encipher = λ key iv x. rw ((eq_iff (toy_tag key iv) (toy_tag key iv)).1 refl) refl;
  from-to = unescape-escape;
  to_no_colon = escape-has_no_colon;
  tag_filled = λ key iv x. escape_filled (toy_tag key iv) (cons_filled "t" (String.◌++◌ key iv));
  ciphertext_filled = λ key iv x full. escape_filled x full;
}
