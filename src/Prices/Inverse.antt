-- ===== src/Prices/Inverse.antt =====
-- An amount of one token changed into the other and back.
use appsec_seq.Base.{
  ℕ, suc, zero, ◌-◌, ◌*◌, ◌≤◌, ◌<◌, ◌≡◌, refl, ap, subst, arith, returns, true, false,
}
use native.Mathlib.Nat.{mul_comm}
use appsec_seq.Prices.{
  DivRound, floor, ceiling, div_round, saturating_u128, one_e27, quantity, inverse_quantity,
}
use appsec_seq.Prices.Rounding.{
  max_u128, saturating_exact, saturating-le, le-saturating, floor-mul-le, le-ceiling-mul,
  floor-le-ceiling,
}

module _ ⦃m : DivRound⦄ where
  -- At a price other than zero, for an amount of token 0 whose cost in token 1 fits in a u128: the cost
  -- rounded up buys back at least the amount, the cost rounded down is repaid by at most the amount, and
  -- the two costs differ by one at most.
  pub inverse_quantity-quantity :
      (p q : ℕ)
      → 0 < p
      → q ≤ max_u128
      → p * q ≤ max_u128 * one_e27
      → (up down back due : ℕ) × (quantity p q true ≡ returns up)
        × (quantity p q false ≡ returns down)
        × (inverse_quantity p up false ≡ returns back)
        × (inverse_quantity p down true ≡ returns due)
        × (q ≤ back)
        × (due ≤ q)
        × (down ≤ up)
        × (up ≤ suc down)
  unfolding quantity inverse_quantity div_round
  inverse_quantity-quantity zero q pos fits h = absurd (omega (arith, pos))
  inverse_quantity-quantity (suc p) q pos fits h =
      let k = one_e27 - 1 in
      let up = m.quotient (suc p * q) one_e27 ceiling in
      let down = m.quotient (suc p * q) one_e27 floor in
      let between = floor-le-ceiling (suc p * q) k in
      let low : up ≤ max_u128 = (m.ceiling_iff max_u128 (suc p * q) k).1 h in
      let back = m.quotient (up * one_e27) (suc p) floor in
      let due = m.quotient (down * one_e27) (suc p) ceiling in
      (
        up,
        down,
        saturating_u128 back,
        saturating_u128 due,
        ap returns (saturating_exact up low),
        ap returns (saturating_exact down (omega (arith, low, between.0))),
        refl,
        refl,
        le-saturating q back
            ((m.floor_iff q (up * one_e27) p).1
              (subst (λ x. x ≤ up * one_e27) (mul_comm (suc p) q) (le-ceiling-mul (suc p * q) k)))
            fits,
        saturating-le due q (
            (m.ceiling_iff q (down * one_e27) p).1
              (subst (λ x. down * one_e27 ≤ x) (mul_comm (suc p) q) (floor-mul-le (suc p * q) k))),
        between.0,
        between.1,
      )
