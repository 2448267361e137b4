-- ===== src/Prices/Debts.antt =====
-- angstrom-main/crates/types/src/matching/debt.rs: an exact amount of token 1 that is owed at a
-- price. The bounds of Uniswap's prices are parameters.
use appsec_seq.Base.{
  ℕ, suc, zero, ◌+◌, ◌-◌, ◌%◌, Bool, true, false, not, ◌&&◌, Option, none, some, Outcome, returns,
  ◌>>=◌, if◌then◌else◌, ltb, leb, ◌==◌, add_u128, u128_mod,
}
use appsec_seq.Prices.{
  DivRound, calc_price_generic, inverse_quantity, inverse_remainder, quantity, saturating_u128,
}
use appsec_seq.Prices.Fees.{low_to_high}

pub data DebtType : Type 0 where
  exact_in exact_out : ℕ → DebtType

-- `DebtType::new`
unfoldable pub of_side : ℕ → Bool → DebtType
of_side q true = exact_in q
of_side q false = exact_out q

unfoldable pub round_up : DebtType → Bool
round_up (exact_in q) = false
round_up (exact_out q) = true

unfoldable pub same_type : DebtType → ℕ → DebtType
same_type (exact_in p) q = exact_in q
same_type (exact_out p) q = exact_out q

unfoldable pub magnitude : DebtType → ℕ
magnitude (exact_in q) = q
magnitude (exact_out q) = q

unfoldable pub is_empty : DebtType → Bool
unfolding magnitude
is_empty d = magnitude d == 0

unfoldable pub same_side : DebtType → DebtType → Bool
same_side (exact_in p) (exact_in q) = true
same_side (exact_in p) (exact_out q) = false
same_side (exact_out p) (exact_in q) = false
same_side (exact_out p) (exact_out q) = true

-- Like types accumulate; different types annihilate or flip.
unfoldable pub add : DebtType → DebtType → DebtType
add (exact_in p) (exact_in q) = exact_in (add_u128 p q)
add (exact_out p) (exact_out q) = exact_out (add_u128 p q)
add (exact_in p) (exact_out q) = if ltb p q then exact_out (q - p) else exact_in (p - q)
add (exact_out p) (exact_in q) = if ltb p q then exact_in (q - p) else exact_out (p - q)

unfoldable pub sub : DebtType → ℕ → DebtType
sub (exact_in q) n = exact_in (q - n)
sub (exact_out q) n = exact_out (q - n)

pub record Debt : Type 0 where
  pub cur_price : ℕ
  pub owed : DebtType

unfoldable pub set_price : Debt → ℕ → Debt
set_price d price = record d { cur_price = price }

unfoldable pub bid_side : Debt → Bool
bid_side d = not (round_up d.owed)

unfoldable pub flat_fill_t1 : Debt → ℕ → Debt
unfolding sub
flat_fill_t1 d q = record d { owed = sub d.owed q }

-- `Add<Debt> for Debt`
unfoldable pub add_debt : Debt → Debt → Option Debt
unfolding add magnitude same_side
add_debt d e =
    let sum = add d.owed e.owed in
    if magnitude sum == 0
    then none
    else some (record {
      owed = sum;
      cur_price = if same_side sum d.owed then d.cur_price else e.cur_price;
    })

-- `Add<Debt> for Option<Debt>`
unfoldable pub add_to : Option Debt → Debt → Option Debt
unfolding add_debt
add_to none e = some e
add_to (some d) e = add_debt d e

unfoldable pub bound_amount : DebtType → ℕ → ℕ
bound_amount (exact_in q) c = add_u128 c 1
bound_amount (exact_out q) c = c - 1

module _ ⦃m : DivRound⦄ where
  unfoldable pub t0_at_price : DebtType → ℕ → Outcome ℕ
  t0_at_price (exact_in q) price = inverse_quantity price q false
  t0_at_price (exact_out q) price = inverse_quantity price q true

  unfoldable pub slack_at_price : DebtType → ℕ → Outcome ℕ
  slack_at_price (exact_in q) price = inverse_remainder price q
  slack_at_price (exact_out q) price = do r ← inverse_remainder price q; returns (r - 1)

  unfoldable pub slack : Debt → Outcome ℕ
  unfolding slack_at_price
  slack d = slack_at_price d.owed d.cur_price

  unfoldable pub from_quantities : ℕ → ℕ → Bool → Outcome Debt
  from_quantities t0 t1 is_exact_in = do
    let owed = of_side t1 is_exact_in
    price ← calc_price_generic t0 t1 (round_up owed)
    returns (record { cur_price = price; owed = owed })

  unfoldable pub current_t0 : Debt → Outcome ℕ
  unfolding t0_at_price
  current_t0 d = t0_at_price d.owed d.cur_price

  unfoldable pub additional_t0_needed : Debt → ℕ → Outcome ℕ
  additional_t0_needed d added_t1 = do
    after ← current_t0 (record d { owed = add d.owed (same_type d.owed added_t1) })
    before ← current_t0 d
    returns ((after + u128_mod - before) % u128_mod)

  -- The token 0 that is still needed: none if as much is freed as is in the debt.
  unfoldable pub kept_t0 : Debt → ℕ → Outcome ℕ
  kept_t0 d t1_change =
      if leb (magnitude d.owed) t1_change
      then returns 0
      else t0_at_price (same_type d.owed (magnitude d.owed - t1_change)) d.cur_price

  unfoldable pub freed_t0 : Debt → ℕ → Outcome ℕ
  unfolding kept_t0
  freed_t0 d t1_change = do i_t0 ← current_t0 d; f_t0 ← kept_t0 d t1_change; returns (i_t0 - f_t0)

  unfoldable pub target_t1 : DebtType → ℕ → ℕ → Outcome ℕ
  target_t1 (exact_in q) price target_t0 = quantity price target_t0 true
  target_t1 (exact_out q) price target_t0 = do
    t1 ← quantity price (target_t0 - 1) false
    returns (saturating_u128 (t1 + 1))

  -- The token 1 that is still needed.
  unfoldable pub kept_t1 : Debt → ℕ → Outcome ℕ
  unfolding target_t1
  kept_t1 d target_t0 = if target_t0 == 0 then returns 0 else target_t1 d.owed d.cur_price target_t0

  unfoldable pub freed_t1 : Debt → ℕ → Outcome ℕ
  unfolding kept_t1
  freed_t1 d t0_change = do
    t0 ← current_t0 d
    t1 ← kept_t1 d (t0 - t0_change)
    returns (magnitude d.owed - t1)

  unfoldable pub filled_t0 : DebtType → ℕ → ℕ → ℕ
  filled_t0 (exact_in q) t0 n = add_u128 t0 n
  filled_t0 (exact_out q) t0 n = t0 - n

  unfoldable pub partial_fill : Debt → ℕ → Outcome Debt
  unfolding filled_t0
  partial_fill d q = do
    t0 ← current_t0 d
    price ← calc_price_generic (filled_t0 d.owed t0 q) (magnitude d.owed) (round_up d.owed)
    returns (record d { cur_price = price })

  unfoldable pub partial_fill_t1 : Debt → ℕ → Outcome Debt
  partial_fill_t1 d q = do
    t0 ← current_t0 d
    let rest = sub d.owed q
    price ← calc_price_generic t0 (magnitude rest) (round_up d.owed)
    returns (record { owed = rest; cur_price = price })

  unfoldable pub dq_to_price : Debt → ℕ → Outcome ℕ
  dq_to_price d price = do
    final_t0 ← t0_at_price d.owed price
    t0 ← current_t0 d
    returns (if ltb t0 final_t0 then final_t0 - t0 else t0 - final_t0)

  module _ (min_price max_price : ℕ) where
    -- The prices of two amounts.
    unfoldable pub two_prices : DebtType → ℕ → ℕ → Outcome (ℕ × ℕ)
    two_prices d zero zero = returns (min_price, max_price)
    two_prices d zero (suc b) = do
      p ← calc_price_generic (suc b) (magnitude d) (round_up d)
      returns (max_price, p)
    two_prices d (suc c) zero = do
      p ← calc_price_generic (suc c) (magnitude d) (round_up d)
      returns (max_price, p)
    two_prices d (suc c) (suc b) = do
      p ← calc_price_generic (suc c) (magnitude d) (round_up d)
      r ← calc_price_generic (suc b) (magnitude d) (round_up d)
      returns (p, r)

    unfoldable pub price_range : Debt → Outcome (ℕ × ℕ)
    unfolding two_prices bound_amount
    price_range d = do
      c ← current_t0 d
      ps ← two_prices d.owed c (bound_amount d.owed c)
      returns (low_to_high ps.0 ps.1)

    unfoldable pub within : DebtType → ℕ → ℕ × ℕ → Bool
    within (exact_in q) price (low, high) = ltb low price && leb price high
    within (exact_out q) price (low, high) = leb low price && ltb price high

    unfoldable pub valid_for_price : Debt → ℕ → Outcome Bool
    unfolding price_range within
    valid_for_price d price = do range ← price_range d; returns (within d.owed price range)

    unfoldable pub validate_and_set_price : Debt → ℕ → Outcome (Debt × Bool)
    unfolding valid_for_price set_price
    validate_and_set_price d price = do
      res ← valid_for_price d price
      returns (if res then (set_price d price, true) else (d, false))
