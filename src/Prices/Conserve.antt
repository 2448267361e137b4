-- ===== src/Prices/Conserve.antt =====
-- No token 0 is made or lost where an order is filled.
use appsec_seq.Base.{
  ℕ, suc, zero, ◌+◌, ◌-◌, ◌*◌, ◌≤◌, ◌<◌, ◌≡◌, refl, arith, returns, true, false, ◌==◌, Bool-cases,
  inl, inr,
}
use native.Mathlib.Nat.{
  mul_comm, le-mul_of_pos_right, mul-le-mul_left, mul-le-mul_right, le_of_mul-le-mul_right,
}
use appsec_seq.Prices.{
  DivRound, floor, ceiling, div_round, saturating_u128, one_e6, one_e27, one_e54, quantity,
  inverse_quantity, inv_ray, invert, scale_to_fee, u256_mod,
}
use appsec_seq.Prices.Fees.{
  Quantities, add_t0_bid_fee, sub_t0_ask_fee, ask_exact_in, bid_exact_in, get_quantities_at_price,
}
use appsec_seq.Prices.Rounding.{
  max_u128, saturating-le, le-saturating, floor-mul-le, floor_mono, div_round_pos, le-ceiling_pos,
}

module _ ⦃m : DivRound⦄ where
  -- The price after a fee returns and is at most the price.
  scale_to_fee-le :
      (p fee : ℕ) → p < u256_mod → (r : ℕ) × (scale_to_fee p fee ≡ returns r) × (r ≤ p)
  unfolding scale_to_fee div_round
  scale_to_fee-le p fee h = elim (Bool-cases (fee == 0)) [
    | inl free ↦ (p, ground arith, omega arith)
    | inr charged ↦
        let r = m.quotient (p * (one_e6 - fee)) one_e6 floor in
        let rate : one_e6 - fee ≤ one_e6 = omega arith in
        let low : r ≤ p =
          le_of_mul-le-mul_right {k = one_e6}
            (omega (arith, floor-mul-le (p * (one_e6 - fee)) (one_e6 - 1), mul-le-mul_left p rate))
            (omega arith) in
        (r, ground arith, low)
  ]

  -- A quantity at a price that is no higher is no higher.
  quantity_mono :
      (p p' q : ℕ)
      → p' ≤ p
      → (x y : ℕ) × (quantity p q false ≡ returns x) × (quantity p' q false ≡ returns y) × (y ≤ x)
  unfolding quantity div_round
  quantity_mono p p' q h =
      let x = m.quotient (p * q) one_e27 floor in
      let y = m.quotient (p' * q) one_e27 floor in
      let low : y ≤ x = floor_mono (p' * q) (p * q) (one_e27 - 1) (mul-le-mul_right q h) in
      (saturating_u128 x, saturating_u128 y, refl, refl, ground arith)

  -- What is sold for the token 1 that an amount gives after the fee is at most the amount.
  sold-le :
      (p p' q : ℕ)
      → 0 < p
      → p' ≤ p
      → (t r : ℕ) × (quantity p' q false ≡ returns t)
        × (inverse_quantity p t true ≡ returns r)
        × (r ≤ q)
  unfolding quantity inverse_quantity div_round
  sold-le zero p' q pos h = absurd (omega (arith, pos))
  sold-le (suc p) p' q pos h =
      let t = m.quotient (p' * q) one_e27 floor in
      let s = saturating_u128 t in
      let r = m.quotient (s * one_e27) (suc p) ceiling in
      let paid : s * one_e27 ≤ q * suc p = omega (
        arith,
        floor-mul-le (p' * q) (one_e27 - 1),
        mul-le-mul_right q h,
        mul_comm (suc p) q,
        saturating-le t t (omega arith),
      ) in
      (
        s,
        saturating_u128 r,
        refl,
        refl,
        saturating-le r q ((m.ceiling_iff q (s * one_e27) p).1 paid),
      )

  -- An ask with an exact amount in that covers the gas, at a price other than zero: it is filled, and what
  -- is sold, the contract's fee and the gas are together the amount that comes in.
  pub ask_exact_in-conserves :
      (fill gas fee ucp : ℕ)
      → 0 < ucp
      → ucp < u256_mod
      → gas ≤ fill
      → (r : Quantities) × (get_quantities_at_price false true fill gas fee ucp ≡ returns r)
        × (r.t0 + r.fee + gas ≡ fill)
  unfolding get_quantities_at_price ask_exact_in
  ask_exact_in-conserves fill gas fee ucp pos h covers =
      let (p, priced, below) = scale_to_fee-le ucp fee h in
      let (t, sold, quantified, inverted, low) = sold-le ucp p (fill - gas) pos below in
      (
        record { t1 = t; t0 = sold; fee = fill - gas - sold },
        rw (priced, quantified, inverted) refl,
        omega (arith, low),
      )

  inv_ray-lt : (p : ℕ) → 0 < p → (r : ℕ) × (inv_ray p ≡ returns r) × (r < u256_mod)
  unfolding inv_ray invert div_round
  inv_ray-lt zero pos = absurd (omega (arith, pos))
  inv_ray-lt (suc p) pos =
      let r = m.quotient one_e54 (suc p) floor in
      let low : r < u256_mod =
        omega (arith, floor-mul-le one_e54 p, le-mul_of_pos_right {m = suc p} r (omega arith)) in
      (r, ground (arith, low), low)

  -- A bid with an exact amount in, at a price other than zero: it is filled for all of its token 1. What
  -- the token 1 buys at the price less the fee, of which the gas is kept back, and the contract's fee are
  -- together what it buys at the price without the fee.
  pub bid_exact_in-conserves :
      (fill gas fee ucp : ℕ)
      → 0 < ucp
      → (r : Quantities) × (price fee_price bought net : ℕ) × (get_quantities_at_price true true
            fill gas fee ucp
          ≡ returns r)
        × (inv_ray ucp ≡ returns price)
        × (scale_to_fee price fee ≡ returns fee_price)
        × (quantity price fill false ≡ returns bought)
        × (quantity fee_price fill false ≡ returns net)
        × (r.t1 ≡ fill)
        × (r.t0 ≡ net - gas)
        × (r.fee + net ≡ bought)
  unfolding get_quantities_at_price bid_exact_in
  bid_exact_in-conserves fill gas fee ucp pos =
      let (price, inverted, small) = inv_ray-lt ucp pos in
      let (fee_price, priced, below) = scale_to_fee-le price fee small in
      let (bought, net, all, part, low) = quantity_mono price fee_price fill below in
      (
        record { t1 = fill; t0 = net - gas; fee = bought - net },
        price,
        fee_price,
        bought,
        net,
        rw (inverted, priced, all, part) refl,
        inverted,
        priced,
        all,
        part,
        refl,
        refl,
        omega (arith, low),
      )

  -- The two functions for the fee of a bid and the fee of an ask are one: that of an ask does not take
  -- the fee off but adds it, so that without a fee of 100% or more it gives no less than the amount.
  pub sub_t0_ask_fee-ge :
      (q fee : ℕ)
      → fee < one_e6
      → q ≤ max_u128
      → (r : ℕ) × (sub_t0_ask_fee q fee ≡ returns r) × (add_t0_bid_fee q fee ≡ returns r) × (q ≤ r)
  unfolding sub_t0_ask_fee add_t0_bid_fee
  sub_t0_ask_fee-ge q fee h fits =
      let r = m.quotient (q * one_e6) (one_e6 - fee) ceiling in
      let left : 0 < one_e6 - fee = omega (arith, h) in
      let rate : one_e6 - fee ≤ one_e6 = omega arith in
      let enough : q ≤ r =
        omega (arith, le-ceiling_pos (q * one_e6) (one_e6 - fee) left, mul-le-mul_left r rate) in
      let divided = div_round_pos (q * one_e6) (one_e6 - fee) ceiling left in
      (saturating_u128 r, rw divided refl, rw divided refl, le-saturating q r enough fits)
