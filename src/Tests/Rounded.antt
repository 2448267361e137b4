-- ===== src/Tests/Rounded.antt =====
-- Runs of the price arithmetic, with the division of the native numbers.
use native.Mathlib.Nat.{le-div_iff_mul-le, div-lt_iff_lt-mul}
use appsec_seq.Base.{
  ℕ, suc, ◌+◌, ◌-◌, ◌*◌, ◌/◌, ◌≤◌, ◌<◌, ◌≡◌, ◌↔◌, refl, arith, returns, true, false, some, ◌==◌,
  if◌then◌else◌, u128_mod,
}
use appsec_seq.Prices.{
  DivRound, RoundingMode, floor, ceiling, quantity, inverse_quantity, one_e27, div_round,
}
use appsec_seq.Prices.Inverse.{inverse_quantity-quantity}
use appsec_seq.Prices.Fees.{Quantities, get_quantities_at_price, add_t0_bid_fee, sub_t0_ask_fee}
use appsec_seq.Prices.Conserve.{ask_exact_in-conserves, sub_t0_ask_fee-ge}
use appsec_seq.Prices.Debts.{
  Debt, exact_in, exact_out, magnitude, add_debt, add, same_side, t0_at_price, current_t0,
  valid_for_price, bound_amount,
}
use appsec_seq.Prices.Signed.{plus, minus, add_debt-signed}
use appsec_seq.Prices.Range.{valid_for_price-same_amount}

abbrev quotient_of : ℕ → ℕ → RoundingMode → ℕ
quotient_of n d floor = n / d
quotient_of n d ceiling = (n + (d - 1)) / d

quotient_floor_iff : (x n d : ℕ) → (x ≤ n / suc d) ↔ (x * suc d ≤ n)
quotient_floor_iff x n d = le-div_iff_mul-le (omega arith)

quotient_ceiling_iff : (x n d : ℕ) → ((n + (suc d - 1)) / suc d ≤ x) ↔ (n ≤ x * suc d)
quotient_ceiling_iff x n d =
    let below : ((n + (suc d - 1)) / suc d < suc x) ↔ (n + (suc d - 1) < suc x * suc d) =
      div-lt_iff_lt-mul (omega arith) in
    (
      (λ h. omega (arith, below.0 (omega (arith, h)))),
      (λ h. omega (arith, below.1 (omega (arith, h)))),
    )

instance abbrev native_division : DivRound
native_division = record {
  quotient = quotient_of;
  floor_iff = quotient_floor_iff;
  ceiling_iff = quotient_ceiling_iff;
}

-- A price of 2 of token 1 for one of token 0.
abbrev two : ℕ
two = 2 * one_e27

inverse_quantity-quantity_example :
    (up down back due : ℕ) × (quantity two 7 true ≡ returns up)
    × (quantity two 7 false ≡ returns down)
    × (inverse_quantity two up false ≡ returns back)
    × (inverse_quantity two down true ≡ returns due)
    × (7 ≤ back)
    × (due ≤ 7)
    × (down ≤ up)
    × (up ≤ suc down)
inverse_quantity-quantity_example =
    inverse_quantity-quantity two 7 (omega arith) (omega arith) (omega arith)

ask_exact_in-conserves_example :
    (r : Quantities) × (get_quantities_at_price false true 100 10 3000 two ≡ returns r)
    × (r.t0 + r.fee + 10 ≡ 100)
ask_exact_in-conserves_example =
    ask_exact_in-conserves 100 10 3000 two (omega arith) (omega arith) (omega arith)

sub_t0_ask_fee-ge_example :
    (r : ℕ) × (sub_t0_ask_fee 100 3000 ≡ returns r)
    × (add_t0_bid_fee 100 3000 ≡ returns r)
    × (100 ≤ r)
sub_t0_ask_fee-ge_example = sub_t0_ask_fee-ge 100 3000 (omega arith) (omega arith)

abbrev bought_5 : Debt
bought_5 = record { cur_price = two; owed = exact_in 5 }

abbrev sold_8 : Debt
sold_8 = record { cur_price = 3 * one_e27; owed = exact_out 8 }

abbrev sold_3 : Debt
sold_3 = record { cur_price = 3 * one_e27; owed = exact_out 3 }

left_3 : add_debt bought_5 sold_8 ≡ some sold_3
unfolding add_debt add magnitude same_side
left_3 = refl

fits : magnitude bought_5.owed + magnitude sold_8.owed < u128_mod
unfolding magnitude
fits = omega arith

add_debt-signed_example :
    (plus sold_3.owed + (minus bought_5.owed + minus sold_8.owed)
      ≡ minus sold_3.owed + (plus bought_5.owed + plus sold_8.owed))
    × (0 < magnitude sold_3.owed)
    × (3 * one_e27 ≡ (if same_side sold_3.owed bought_5.owed then two else 3 * one_e27))
    × (same_side sold_3.owed
          (if same_side sold_3.owed bought_5.owed then bought_5.owed else sold_8.owed)
        ≡ true)
add_debt-signed_example = add_debt-signed bought_5 sold_8 sold_3 fits left_3

-- At the price 2, 5 of token 1 are 2 of token 0.
now_2 : current_t0 bought_5 ≡ returns 2
unfolding current_t0 t0_at_price inverse_quantity div_round
now_2 = refl

small : magnitude bought_5.owed ≤ u128_mod - 1
unfolding magnitude
small = omega arith

bound_3 : 0 < bound_amount bought_5.owed 2
unfolding bound_amount
bound_3 = omega arith

valid_for_price-same_amount_example :
    (t : ℕ) × (t0_at_price (exact_in 5) (3 * one_e27) ≡ returns t)
    × (valid_for_price 1 (9 * one_e27) bought_5 (3 * one_e27) ≡ returns (t == 2))
valid_for_price-same_amount_example =
    valid_for_price-same_amount 1 (9 * one_e27) bought_5 (3 * one_e27) 2 (omega arith) small now_2
      (omega arith) bound_3 (omega arith)
