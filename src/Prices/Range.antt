-- ===== src/Prices/Range.antt =====
-- The prices at which a debt is the same amount of token 0.
use appsec_seq.Base.{
  ℕ, suc, zero, ◌-◌, ◌*◌, ◌≤◌, ◌<◌, ◌≡◌, refl, sym, ◌∙◌, ap, arith, returns, true, false, Bool,
  ◌&&◌, ltb, leb, ◌==◌, add_u128,
}
use native.Mathlib.Nat.{mul_comm, mul-le-mul_left, le-mul_of_pos_right}
use appsec_seq.Prices.{
  DivRound, floor, ceiling, mode, div_round, saturating_u128, one_e27, inverse_quantity,
  calc_price_generic, calc_price_inner, u256_mod,
}
use appsec_seq.Prices.Fees.{low_to_high}
use appsec_seq.Prices.Rounding.{max_u128, floor-mul-le, le-ceiling-mul, floor-le-ceiling}
use appsec_seq.Prices.Debts.{
  DebtType, exact_in, exact_out, magnitude, round_up, Debt, t0_at_price, current_t0, bound_amount,
  two_prices, price_range, within, valid_for_price,
}

module _ ⦃m : DivRound⦄ where
  -- Rounded down, a quotient is an amount exactly when the divisor lies between two quotients.
  floor_between :
      (n p c : ℕ)
      → ltb (m.quotient n (suc (suc c)) floor) (suc p) && leb (suc p) (m.quotient n (suc c) floor)
        ≡ (m.quotient n (suc p) floor == suc c)
  floor_between n p c = ground (
    arith,
    m.floor_iff (suc p) n c,
    m.floor_iff (suc p) n (suc c),
    m.floor_iff (suc c) n p,
    m.floor_iff (suc (suc c)) n p,
    mul_comm (suc p) (suc c),
    mul_comm (suc p) (suc (suc c)),
  )

  -- Rounded up, likewise.
  ceiling_between :
      (n p c : ℕ)
      → leb (m.quotient n (suc (suc c)) ceiling) (suc p)
          && ltb (suc p) (m.quotient n (suc c) ceiling)
        ≡ (m.quotient n (suc p) ceiling == suc (suc c))
  ceiling_between n p c = ground (
    arith,
    m.ceiling_iff (suc p) n c,
    m.ceiling_iff (suc p) n (suc c),
    m.ceiling_iff (suc c) n p,
    m.ceiling_iff (suc (suc c)) n p,
    mul_comm (suc p) (suc c),
    mul_comm (suc p) (suc (suc c)),
  )

  floor_anti : (n c : ℕ) → m.quotient n (suc (suc c)) floor ≤ m.quotient n (suc c) floor
  floor_anti n c =
      let x = m.quotient n (suc (suc c)) floor in
      let h : suc c ≤ suc (suc c) = omega arith in
      (m.floor_iff x n c).1 (omega (arith, floor-mul-le n (suc c), mul-le-mul_left x h))

  ceiling_anti : (n c : ℕ) → m.quotient n (suc (suc c)) ceiling ≤ m.quotient n (suc c) ceiling
  ceiling_anti n c =
      let x = m.quotient n (suc c) ceiling in
      let h : suc c ≤ suc (suc c) = omega arith in
      (m.ceiling_iff x n (suc c)).1 (omega (arith, le-ceiling-mul n c, mul-le-mul_left x h))

  -- A price for an amount of token 1 that fits in a u128 fits in 256 bits.
  quotient-lt :
      (q x : ℕ) (up : Bool) → q ≤ max_u128 → m.quotient (q * one_e27) (suc x) (mode up) < u256_mod
  quotient-lt q x up h =
      let n = q * one_e27 in
      let top : m.quotient n (suc x) ceiling ≤ n =
        (m.ceiling_iff n n x).1 (le-mul_of_pos_right {m = suc x} n (omega arith)) in
      ground (arith, top, floor-le-ceiling n x)

  calc_price_generic_lem :
      (t0 q : ℕ) (up : Bool)
      → q ≤ max_u128
      → calc_price_generic (suc t0) q up ≡ returns (m.quotient (q * one_e27) (suc t0) (mode up))
  unfolding calc_price_generic calc_price_inner div_round
  calc_price_generic_lem t0 q up h = ground (arith, quotient-lt q t0 up h)

  low_to_high_lem : (a b : ℕ) → b ≤ a → low_to_high a b ≡ (b, a)
  unfolding low_to_high
  low_to_high_lem a b h = ground arith

  low_to_high_same : (a b : ℕ) → a ≤ b → low_to_high a b ≡ (a, b)
  unfolding low_to_high
  low_to_high_same a b h = ground arith

  -- The amount is not the largest one, so nothing was cut off.
  saturating-eq : (x c : ℕ) → c < max_u128 → (saturating_u128 x == c) ≡ (x == c)
  saturating-eq x c h = ground arith

  module _ (min_price max_price : ℕ) where
    -- The range of a debt that is more than none and less than all of token 0.
    price_range_in :
        (price c q : ℕ)
        → q ≤ max_u128
        → suc c < max_u128
        → current_t0 (record { cur_price = price; owed = exact_in q }) ≡ returns (suc c)
        → price_range min_price max_price (record { cur_price = price; owed = exact_in q })
          ≡ returns
              (m.quotient (q * one_e27) (suc (suc c)) floor, m.quotient (q * one_e27) (suc c) floor)
    unfolding price_range two_prices bound_amount magnitude round_up
    price_range_in price c q h room e =
        let n = q * one_e27 in
        let next : add_u128 (suc c) 1 ≡ suc (suc c) = omega (arith, room) in
        rw
          (
            e,
            next,
            calc_price_generic_lem c q false h,
            calc_price_generic_lem (suc c) q false h,
            low_to_high_lem (m.quotient n (suc c) floor) (m.quotient n (suc (suc c)) floor)
                (floor_anti n c),
          )
          refl

    price_range_out :
        (price c q : ℕ)
        → q ≤ max_u128
        → current_t0 (record { cur_price = price; owed = exact_out q }) ≡ returns (suc (suc c))
        → price_range min_price max_price (record { cur_price = price; owed = exact_out q })
          ≡ returns (
            m.quotient (q * one_e27) (suc (suc c)) ceiling,
            m.quotient (q * one_e27) (suc c) ceiling,
          )
    unfolding price_range two_prices bound_amount magnitude round_up
    price_range_out price c q h e =
        let n = q * one_e27 in
        let before : suc (suc c) - 1 ≡ suc c = omega arith in
        rw (e, before, calc_price_generic_lem (suc c) q true h, calc_price_generic_lem c q true h)
          (ap returns (
            low_to_high_same (m.quotient n (suc (suc c)) ceiling) (m.quotient n (suc c) ceiling)
              (ceiling_anti n c)))

    same_amount :
        (cur : ℕ) (o : DebtType) (price c : ℕ)
        → 0 < price
        → magnitude o ≤ max_u128
        → t0_at_price o cur ≡ returns c
        → 0 < c
        → 0 < bound_amount o c
        → c < max_u128
        → (t : ℕ) × (t0_at_price o price ≡ returns t)
          × (valid_for_price min_price max_price (record { cur_price = cur; owed = o }) price
              ≡ returns (t == c))
    unfolding valid_for_price within t0_at_price inverse_quantity div_round magnitude bound_amount
        current_t0
    same_amount cur o zero c pos h e some_c bound room = absurd (omega (arith, pos))
    same_amount cur o (suc p) zero pos h e some_c bound room = absurd (omega (arith, some_c))
    same_amount cur (exact_in q) (suc p) (suc c) pos h e some_c bound room =
        let x = m.quotient (q * one_e27) (suc p) floor in
        (
          saturating_u128 x,
          refl,
          rw (price_range_in cur c q h room e)
              (ap returns (floor_between (q * one_e27) p c ∙ sym (saturating-eq x (suc c) room))),
        )
    same_amount cur (exact_out q) (suc p) (suc zero) pos h e some_c bound room =
        absurd (omega (arith, bound))
    same_amount cur (exact_out q) (suc p) (suc (suc c)) pos h e some_c bound room =
        let x = m.quotient (q * one_e27) (suc p) ceiling in
        (
          saturating_u128 x,
          refl,
          rw (price_range_out cur c q h e) (
              ap returns
                (ceiling_between (q * one_e27) p c ∙ sym (saturating-eq x (suc (suc c)) room))),
        )

    -- A debt of an amount of token 1 that fits in a u128, at a price other than zero, for an amount of
    -- token 0 that is neither none, nor one where it rounds up, nor the largest one: another price other
    -- than zero is valid for it exactly when the debt is the same amount of token 0 there.
    pub valid_for_price-same_amount :
        (d : Debt) (price c : ℕ)
        → 0 < price
        → magnitude d.owed ≤ max_u128
        → current_t0 d ≡ returns c
        → 0 < c
        → 0 < bound_amount d.owed c
        → c < max_u128
        → (t : ℕ) × (t0_at_price d.owed price ≡ returns t)
          × (valid_for_price min_price max_price d price ≡ returns (t == c))
    unfolding current_t0
    valid_for_price-same_amount d price c = same_amount d.cur_price d.owed price c
