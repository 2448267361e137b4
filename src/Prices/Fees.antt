-- ===== src/Prices/Fees.antt =====
-- angstrom-main/crates/types/src/matching/math/mod.rs: the fee on token 0, and the amounts of an
-- order that is filled.
use appsec_seq.Base.{
  ℕ, ◌-◌, ◌*◌, Bool, true, false, Outcome, returns, ◌>>=◌, if◌then◌else◌, ltb, add_u128,
}
use appsec_seq.Prices.{
  DivRound, ceiling, div_round, saturating_u128, one_e6, quantity, inverse_quantity, inv_ray,
  scale_to_fee,
}

pub data Direction : Type 0 where
  buying_t0 selling_t0 : Direction

-- What an order moves: token 1, token 0 for the order, and token 0 for the contract.
pub record Quantities : Type 0 where
  pub t1 : ℕ
  pub t0 : ℕ
  pub fee : ℕ

-- Subtraction on ℕ stops at 0, as `saturating_sub` does.
unfoldable pub low_to_high : ℕ → ℕ → ℕ × ℕ
low_to_high a b = if ltb b a then (b, a) else (a, b)

module _ ⦃m : DivRound⦄ where
  unfoldable pub add_t0_bid_fee : ℕ → ℕ → Outcome ℕ
  add_t0_bid_fee q fee = do
    r ← div_round (q * one_e6) (one_e6 - fee) ceiling
    returns (saturating_u128 r)

  unfoldable pub sub_t0_ask_fee : ℕ → ℕ → Outcome ℕ
  sub_t0_ask_fee q fee = do
    r ← div_round (q * one_e6) (one_e6 - fee) ceiling
    returns (saturating_u128 r)

  unfoldable pub bid_exact_in : ℕ → ℕ → ℕ → ℕ → Outcome Quantities
  bid_exact_in fill_amount gas fee ray_ucp = do
    bid_price ← inv_ray ray_ucp
    bid_fee_price ← scale_to_fee bid_price fee
    exchanged_t0 ← quantity bid_price fill_amount false
    net_t0 ← quantity bid_fee_price fill_amount false
    returns (record { t1 = fill_amount; t0 = net_t0 - gas; fee = exchanged_t0 - net_t0 })

  unfoldable pub bid_exact_out : ℕ → ℕ → ℕ → ℕ → Outcome Quantities
  bid_exact_out fill_amount gas fee ray_ucp = do
    bid_price ← inv_ray ray_ucp
    bid_fee_price ← scale_to_fee bid_price fee
    t1_required ← inverse_quantity bid_fee_price (add_u128 fill_amount gas) true
    total_t0_purchased ← quantity bid_price t1_required false
    returns (record {
      t1 = t1_required;
      t0 = fill_amount;
      fee = total_t0_purchased - add_u128 fill_amount gas;
    })

  unfoldable pub ask_exact_in : ℕ → ℕ → ℕ → ℕ → Outcome Quantities
  ask_exact_in fill_amount gas fee ray_ucp = do
    ask_fee_price ← scale_to_fee ray_ucp fee
    net_t1_out ← quantity ask_fee_price (fill_amount - gas) false
    net_t0_sold ← inverse_quantity ray_ucp net_t1_out true
    returns (record { t1 = net_t1_out; t0 = net_t0_sold; fee = fill_amount - gas - net_t0_sold })

  unfoldable pub ask_exact_out : ℕ → ℕ → ℕ → ℕ → Outcome Quantities
  ask_exact_out fill_amount gas fee ray_ucp = do
    ask_fee_price ← scale_to_fee ray_ucp fee
    input ← inverse_quantity ask_fee_price fill_amount true
    let total_t0_input = add_u128 input gas
    net_t0 ← inverse_quantity ray_ucp fill_amount true
    returns (record { t1 = fill_amount; t0 = net_t0; fee = total_t0_input - gas - net_t0 })

  unfoldable pub get_quantities_at_price : Bool → Bool → ℕ → ℕ → ℕ → ℕ → Outcome Quantities
  unfolding bid_exact_in bid_exact_out ask_exact_in ask_exact_out
  get_quantities_at_price true true fill_amount gas fee ray_ucp =
      bid_exact_in fill_amount gas fee ray_ucp
  get_quantities_at_price true false fill_amount gas fee ray_ucp =
      bid_exact_out fill_amount gas fee ray_ucp
  get_quantities_at_price false true fill_amount gas fee ray_ucp =
      ask_exact_in fill_amount gas fee ray_ucp
  get_quantities_at_price false false fill_amount gas fee ray_ucp =
      ask_exact_out fill_amount gas fee ray_ucp

  unfoldable pub max_t1_for_t0 : ℕ → Direction → ℕ → Outcome ℕ
  max_t1_for_t0 t0 buying_t0 price = do t1 ← quantity price (add_u128 t0 1) true; returns (t1 - 1)
  max_t1_for_t0 t0 selling_t0 price = quantity price t0 false
