-- ===== src/Prices/Tokens.antt =====
-- angstrom-main/crates/types/src/matching/tokens.rs, and the directions of
-- angstrom-main/crates/types/src/matching/uniswap/mod.rs: amounts of one of the two tokens. An
-- amount of one token costs what ray.rs says in the other.
use appsec_seq.Base.{
  ℕ, ◌+◌, ◌-◌, ◌%◌, Bool, true, false, Outcome, returns, panics, ◌>>=◌, if◌then◌else◌, ltb,
  add_u128, u128_mod,
}
use appsec_seq.Prices.{DivRound, mul_quantity, quantity, inverse_quantity}
use appsec_seq.Prices.Fees.{Direction, buying_t0, selling_t0}

pub data TokenQuantity : Type 0 where
  token0 token1 : ℕ → TokenQuantity

-- The operators wrap.
unfoldable pub add : TokenQuantity → ℕ → TokenQuantity
add (token0 q) n = token0 (add_u128 q n)
add (token1 q) n = token1 (add_u128 q n)

unfoldable pub sub : TokenQuantity → ℕ → TokenQuantity
sub (token0 q) n = token0 ((q + u128_mod - n) % u128_mod)
sub (token1 q) n = token1 ((q + u128_mod - n) % u128_mod)

-- The method `quantity`.
unfoldable pub amount : TokenQuantity → ℕ
amount (token0 q) = q
amount (token1 q) = q

-- `Uint::to::<u128>` panics on a number that does not fit.
unfoldable pub to_u128 : ℕ → Outcome ℕ
to_u128 n = if ltb n u128_mod then returns n else panics

unfoldable pub as_input : TokenQuantity → Direction
as_input (token0 q) = selling_t0
as_input (token1 q) = buying_t0

unfoldable pub as_output : TokenQuantity → Direction
as_output (token0 q) = buying_t0
as_output (token1 q) = selling_t0

unfoldable pub from_is_bid : Bool → Direction
from_is_bid true = selling_t0
from_is_bid false = buying_t0

unfoldable pub is_bid : Direction → Bool
is_bid buying_t0 = true
is_bid selling_t0 = false

unfoldable pub is_ask : Direction → Bool
is_ask buying_t0 = false
is_ask selling_t0 = true

unfoldable pub from_prices : ℕ → ℕ → Direction
from_prices start end = if ltb start end then buying_t0 else selling_t0

unfoldable pub is_input : Direction → TokenQuantity → Bool
is_input buying_t0 (token0 q) = false
is_input buying_t0 (token1 q) = true
is_input selling_t0 (token0 q) = true
is_input selling_t0 (token1 q) = false

unfoldable pub sort_tokens {ℓ} : {A : Type ℓ} → Direction → A → A → A × A
sort_tokens buying_t0 amount_in amount_out = (amount_out, amount_in)
sort_tokens selling_t0 amount_in amount_out = (amount_in, amount_out)

unfoldable pub sort_amounts {ℓ} : {A : Type ℓ} → Direction → A → A → A × A
sort_amounts buying_t0 t0 t1 = (t1, t0)
sort_amounts selling_t0 t0 t1 = (t0, t1)

module _ ⦃m : DivRound⦄ where
  unfoldable pub swap_at_price : TokenQuantity → ℕ → Outcome TokenQuantity
  unfolding to_u128
  swap_at_price (token0 q) price = do t1 ← mul_quantity price q; r ← to_u128 t1; returns (token1 r)
  swap_at_price (token1 q) price = do t0 ← inverse_quantity price q true; returns (token0 t0)

  unfoldable pub as_t0 : TokenQuantity → ℕ → Outcome TokenQuantity
  unfolding swap_at_price
  as_t0 (token0 q) price = returns (token0 q)
  as_t0 (token1 q) price = swap_at_price (token1 q) price

  unfoldable pub as_t1 : TokenQuantity → ℕ → Outcome TokenQuantity
  unfolding swap_at_price
  as_t1 (token0 q) price = swap_at_price (token0 q) price
  as_t1 (token1 q) price = returns (token1 q)

  unfoldable pub price_of : ℕ → TokenQuantity → Bool → Outcome ℕ
  price_of price (token0 t0) round_up = quantity price t0 round_up
  price_of price (token1 t1) round_up = inverse_quantity price t1 round_up
