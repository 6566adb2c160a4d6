-- ===== src/Codes/Base32.antt =====
-- What the digits of a code say: the number of its bytes.
use coparentes_backend.Common.{
  ℕ, zero, suc, ◌+◌, ◌-◌, ◌*◌, ◌/◌, ◌%◌, ◌^◌, ◌≤◌, ◌<◌, ◌≡◌, refl, sym, subst, inl, inr, ◌∙◌, List,
  [], ◌∷◌, ◌++◌, All, length, arith, leb, ltb, Bool-cases,
}
use coparentes_backend.Codes.{take_digits, last_digit, encode_from, encode_crockford_base32}

-- The number that digits of a base write, the greatest first, after those of `acc`.
abbrev pub number : ℕ → ℕ → List ℕ → ℕ
number base acc [] = acc
number base acc (x ∷ xs) = number base (base * acc + x) xs

number-append_one :
    (base acc : ℕ) (xs : List ℕ) (x : ℕ)
    → number base acc (xs ++ x ∷ []) ≡ base * number base acc xs + x
number-append_one base acc [] x = refl
number-append_one base acc (y ∷ xs) x = number-append_one base (base * acc + y) xs x

-- A digit taken at a place.
digit_at : (c n : ℕ) → c ≤ 7 → n / 2 ^ c ≡ 32 * (n / 2 ^ (5 + c)) + n % 2 ^ 32 / 2 ^ c % 32
digit_at zero n h = omega arith
digit_at (suc zero) n h = omega arith
digit_at (suc (suc zero)) n h = omega arith
digit_at (suc (suc (suc zero))) n h = omega arith
digit_at (suc (suc (suc (suc zero)))) n h = omega arith
digit_at (suc (suc (suc (suc (suc zero))))) n h = omega arith
digit_at (suc (suc (suc (suc (suc (suc zero)))))) n h = omega arith
digit_at (suc (suc (suc (suc (suc (suc (suc zero))))))) n h = omega arith
digit_at (suc (suc (suc (suc (suc (suc (suc (suc c)))))))) n h = absurd (omega (arith, h))

-- What holds between two bytes: `n` is the number of the `k` bytes read, and the digits are those of its upper bits.
record IsRead (n k value bits : ℕ) (output : List ℕ) : Type 0 where
  word : value ≡ n % 2 ^ 32
  few : bits ≤ 4
  digits : number 32 0 output ≡ n / 2 ^ bits
  count : 5 * length output + bits ≡ 8 * k

-- One digit more.
one_more :
    (n c : ℕ) (output : List ℕ)
    → c ≤ 7
    → number 32 0 output ≡ n / 2 ^ (5 + c)
    → number 32 0 (output ++ (n % 2 ^ 32 / 2 ^ c % 32) ∷ []) ≡ n / 2 ^ c
one_more n c output h e = number-append_one 32 0 output _ ∙ rw e (sym (digit_at c n h))

length-append_one : (xs : List ℕ) (x : ℕ) → length (xs ++ x ∷ []) ≡ 1 + length xs
length-append_one [] x = omega arith
length-append_one (y ∷ xs) x = omega (arith, length-append_one xs x)

-- The inner loop leaves fewer than five bits, with as many rounds as there are bits to spend.
take_digits-IsRead :
    (fuel n k bits : ℕ) (output : List ℕ)
    → bits ≤ fuel
    → bits ≤ 12
    → number 32 0 output ≡ n / 2 ^ bits
    → 5 * length output + bits ≡ 8 * k
    → let r = take_digits fuel (n % 2 ^ 32) bits output in IsRead n k (n % 2 ^ 32) r.0 r.1
unfolding take_digits
take_digits-IsRead zero n k bits output f h e l = record {
  word = refl;
  few = omega (arith, f);
  digits = e;
  count = l;
}
take_digits-IsRead (suc fuel) n k bits output f h e l = elim (Bool-cases (leb 5 bits)) [
  | inr done ↦ rw done (record { word = refl; few = ground (arith, done); digits = e; count = l })
  | inl more ↦
      let le : 5 ≤ bits = ground (arith, more) in
      let whole : 5 + (bits - 5) ≡ bits = omega (arith, le) in
      let longer = length-append_one output (n % 2 ^ 32 / 2 ^ (bits - 5) % 32) in
      rw more (
        take_digits-IsRead fuel n k (bits - 5) _ (omega (arith, f)) (omega (arith, h))
          (one_more n (bits - 5) output (omega (arith, h)) (rw whole e))
          (omega (arith, l, le, longer)))
]

abbrev pub IsByte : ℕ → Type 0
IsByte x = x < 256

-- The end: the digits have all bits, with zeros to a whole digit.
abbrev pub padding : ℕ → ℕ
padding bits = (5 - bits % 5) % 5

-- The upper bits do not change when a byte is read.
shifted :
    (bits n byte : ℕ) → bits ≤ 4 → byte < 256 → n / 2 ^ bits ≡ (256 * n + byte) / 2 ^ (8 + bits)
shifted zero n byte h b = omega (arith, b)
shifted (suc zero) n byte h b = omega (arith, b)
shifted (suc (suc zero)) n byte h b = omega (arith, b)
shifted (suc (suc (suc zero))) n byte h b = omega (arith, b)
shifted (suc (suc (suc (suc zero)))) n byte h b = omega (arith, b)
shifted (suc (suc (suc (suc (suc c))))) n byte h b = absurd (omega (arith, h))

-- The last digit holds the bits that are left, above zeros.
last_at :
    (bits n : ℕ)
    → bits ≤ 4
    → 1 ≤ bits
    → 32 * (n / 2 ^ bits) + n % 2 ^ 32 * 2 ^ (5 - bits) % 2 ^ 32 % 32 ≡ n * 2 ^ padding bits
last_at zero n h b = absurd (omega (arith, b))
last_at (suc zero) n h b = omega arith
last_at (suc (suc zero)) n h b = omega arith
last_at (suc (suc (suc zero))) n h b = omega arith
last_at (suc (suc (suc (suc zero)))) n h b = omega arith
last_at (suc (suc (suc (suc (suc c))))) n h b = absurd (omega (arith, h))

last_digit_lem :
    (n k value bits : ℕ) (output : List ℕ)
    → IsRead n k value bits output
    → (5 * length (last_digit value bits output) ≡ 8 * k + padding (8 * k))
      × (number 32 0 (last_digit value bits output) ≡ n * 2 ^ padding (8 * k))
unfolding last_digit
last_digit_lem n k value bits output h =
    let same : 8 * k % 5 ≡ bits % 5 = omega (arith, h.count) in
    elim (Bool-cases (ltb 0 bits)) [
      | inl left ↦
          let few : 1 ≤ bits = ground (arith, left) in
          let longer = length-append_one output (value * 2 ^ (5 - bits) % 2 ^ 32 % 32) in
          rw (left, same)
            (
              omega (arith, longer, few, h.few, h.count),
              number-append_one 32 0 output _ ∙ rw (h.digits, h.word) (last_at bits n h.few few),
            )
      | inr no_bits ↦
          let none_left : bits ≡ 0 = ground (arith, no_bits) in
          rw (no_bits, same, none_left)
            (omega (arith, h.count, none_left), h.digits ∙ rw none_left (omega arith))
    ]

encode_from-number :
    (bytes : List ℕ) (n k value bits : ℕ) (output : List ℕ)
    → All IsByte bytes
    → IsRead n k value bits output
    → (5 * length (encode_from bytes value bits output)
        ≡ 8 * (length bytes + k) + padding (8 * (length bytes + k)))
      × (number 32 0 (encode_from bytes value bits output)
          ≡ number 256 n bytes * 2 ^ padding (8 * (length bytes + k)))
unfolding encode_from
encode_from-number [] n k value bits output b h =
    rw (zero_plus k) (last_digit_lem n k value bits output h)
  where
    zero_plus : (k : ℕ) → 0 + k ≡ k
    zero_plus k = omega arith
encode_from-number (byte ∷ bytes) n k value bits output b h =
    let word : value * 256 % 2 ^ 32 + byte ≡ (256 * n + byte) % 2 ^ 32 =
      omega (arith, h.word, b.0) in
    let r =
      take_digits-IsRead (8 + bits) (256 * n + byte) (1 + k) (8 + bits) output (omega arith)
        (omega (arith, h.few)) (h.digits ∙ shifted bits n byte h.few b.0)
        (omega (arith, h.count)) in
    let further : suc (length bytes) + k ≡ length bytes + (1 + k) = omega arith in
    rw (word, further) (encode_from-number bytes (256 * n + byte) (1 + k) _ _ _ b.1 r)

-- For bytes below 256, the digits of `encodeCrockfordBase32` write the number that the bytes write, followed by the zero bits that fill
-- the last digit, and there are as many digits as the bits need. The word of 32 bits loses nothing.
pub encode-number :
    (bytes : List ℕ)
    → All IsByte bytes
    → (5 * length (encode_crockford_base32 bytes) ≡ 8 * length bytes + padding (8 * length bytes))
      × (number 32 0 (encode_crockford_base32 bytes)
          ≡ number 256 0 bytes * 2 ^ padding (8 * length bytes))
unfolding encode_crockford_base32
encode-number bytes b =
    let start : IsRead 0 0 0 0 [] = record {
      word = refl;
      few = omega arith;
      digits = refl;
      count = refl;
    } in
    subst
      (λ k.
        (5 * length (encode_from bytes 0 0 []) ≡ 8 * k + padding (8 * k))
        × (number 32 0 (encode_from bytes 0 0 []) ≡ number 256 0 bytes * 2 ^ padding (8 * k)))
      (plus_zero (length bytes)) (encode_from-number bytes 0 0 0 0 [] b start)
  where
    plus_zero : (k : ℕ) → k + 0 ≡ k
    plus_zero k = omega arith
