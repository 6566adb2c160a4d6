-- ===== src/Codes/Fuel.antt =====
-- The inner loop of `encodeCrockfordBase32` ends by its own test.
use coparentes_backend.Common.{
  ℕ, zero, suc, false, ◌-◌, ◌/◌, ◌%◌, ◌^◌, ◌≤◌, ◌<◌, ◌≡◌, refl, inl, inr, List, [], ◌∷◌, ◌++◌, leb,
  Bool-cases, arith,
}
use coparentes_backend.Codes.{take_digits}

-- With fuel for the bits it starts with, the inner loop of `encodeCrockfordBase32` stops where its own test fails, with less than five bits left; any other such
-- fuel gives the same bits and digits.
pub take_digits-stops :
    (fuel other value bits : ℕ) (output : List ℕ)
    → bits ≤ fuel
    → bits ≤ other
    → ((take_digits fuel value bits output).0 < 5)
      × (take_digits other value bits output ≡ take_digits fuel value bits output)
unfolding take_digits
take_digits-stops zero zero value bits output enough also = (omega (arith, enough), refl)
take_digits-stops zero (suc other) value bits output enough also =
    let stop : leb 5 bits ≡ false = ground (arith, enough) in (omega (arith, enough), rw stop refl)
take_digits-stops (suc fuel) zero value bits output enough also =
    let stop : leb 5 bits ≡ false = ground (arith, also) in rw stop (omega (arith, also), refl)
take_digits-stops (suc fuel) (suc other) value bits output enough also =
    elim (Bool-cases (leb 5 bits)) [
      | inr stop ↦ rw stop (ground (arith, stop), refl)
      | inl more ↦
          let five : 5 ≤ bits = ground (arith, more) in
          rw more (
            take_digits-stops fuel other value (bits - 5)
              (output ++ (value / 2 ^ (bits - 5) % 32) ∷ []) (omega (arith, enough, five))
              (omega (arith, also, five)))
    ]
