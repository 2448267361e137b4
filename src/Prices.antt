-- ===== src/Prices.antt =====
-- angstrom-main/crates/types/src/sol_bindings/ray.rs: prices as 256-bit numbers with 27 decimals.
-- The division of malachite's naturals is a parameter with what its documentation says of it; a
-- number that does not fit in 256 bits panics where the code builds one from its limbs.
pub mod Rounding
pub mod Inverse
pub mod Fees
pub mod Conserve
pub mod Debts
pub mod Signed
pub mod Range
pub mod Tokens
use appsec_seq.Base.{
  ℕ, suc, zero, ◌+◌, ◌-◌, ◌*◌, ◌%◌, ◌^◌, ◌≤◌, ◌↔◌, Bool, true, false, Outcome, returns, panics,
  ◌>>=◌, if◌then◌else◌, ltb, ◌==◌, u128_mod,
}

pub data RoundingMode : Type 0 where
  floor ceiling : RoundingMode

-- The division of naturals: rounded down it is the greatest number whose product with the divisor is at
-- most the dividend, rounded up the least whose product is at least the dividend.
pub record DivRound : Type 0 where
  pub quotient : ℕ → ℕ → RoundingMode → ℕ
  pub floor_iff : (x n d : ℕ) → (x ≤ quotient n (suc d) floor) ↔ (x * suc d ≤ n)
  pub ceiling_iff : (x n d : ℕ) → (quotient n (suc d) ceiling ≤ x) ↔ (n ≤ x * suc d)

abbrev pub u256_mod : ℕ
u256_mod = 2 ^ 256

abbrev pub one_e6 : ℕ
one_e6 = 10 ^ 6

abbrev pub one_e27 : ℕ
one_e27 = 10 ^ 27

abbrev pub one_e54 : ℕ
one_e54 = 10 ^ 54

abbrev pub two_192 : ℕ
two_192 = 2 ^ 192

-- `Uint::from_limbs_slice`
abbrev pub from_limbs : ℕ → Outcome ℕ
from_limbs n = if ltb n u256_mod then returns n else panics

-- `u128::saturating_from`
abbrev pub saturating_u128 : ℕ → ℕ
saturating_u128 n = if ltb n u128_mod then n else u128_mod - 1

abbrev pub mode : Bool → RoundingMode
mode true = ceiling
mode false = floor

-- The operators on a Ray wrap; `Sub<usize>` saturates.
unfoldable pub add : ℕ → ℕ → ℕ
add p q = (p + q) % u256_mod

unfoldable pub sub : ℕ → ℕ → ℕ
sub p q = (p + u256_mod - q) % u256_mod

unfoldable pub sub_usize : ℕ → ℕ → ℕ
sub_usize p n = p - n

unfoldable pub scale_to_ray : ℕ → Outcome ℕ
scale_to_ray v = from_limbs (v * one_e27)

module _ ⦃m : DivRound⦄ where
  -- A division by zero panics.
  unfoldable pub div_round : ℕ → ℕ → RoundingMode → Outcome ℕ
  div_round n zero rm = panics
  div_round n (suc d) rm = returns (m.quotient n (suc d) rm)

  unfoldable pub convert_sqrtpricex96 : ℕ → Bool → Outcome ℕ
  unfolding div_round
  convert_sqrtpricex96 price round_up = do
    r ← div_round (price * price * one_e27) two_192 (mode round_up)
    from_limbs r

  unfoldable pub scale_out_of_ray : ℕ → Outcome ℕ
  unfolding div_round
  scale_out_of_ray p = do r ← div_round p one_e27 floor; from_limbs r

  unfoldable pub unscale_to_fee : ℕ → ℕ → Outcome ℕ
  unfolding div_round
  unscale_to_fee p fee =
      if fee == 0
      then returns p
      else (do r ← div_round (p * one_e6) (one_e6 - fee) floor; from_limbs r)

  unfoldable pub scale_to_fee : ℕ → ℕ → Outcome ℕ
  unfolding div_round
  scale_to_fee p fee =
      if fee == 0
      then returns p
      else (do r ← div_round (p * (one_e6 - fee)) one_e6 floor; from_limbs r)

  unfoldable pub mul_ray : ℕ → ℕ → Outcome ℕ
  unfolding div_round
  mul_ray p other = do r ← div_round (p * other) one_e27 floor; from_limbs r

  unfoldable pub div_ray : ℕ → ℕ → Outcome ℕ
  unfolding div_round
  div_ray p other = do r ← div_round (p * one_e27) other floor; from_limbs r

  unfoldable pub invert : ℕ → RoundingMode → Outcome ℕ
  unfolding div_round
  invert p rm = do r ← div_round one_e54 p rm; from_limbs r

  unfoldable pub inv_ray_round : ℕ → Bool → Outcome ℕ
  unfolding invert
  inv_ray_round p true = invert p ceiling
  inv_ray_round p false = invert p floor

  unfoldable pub inv_ray : ℕ → Outcome ℕ
  unfolding invert
  inv_ray p = if p == 0 then returns p else invert p floor

  unfoldable pub mul_wad : ℕ → ℕ → ℕ → Outcome ℕ
  unfolding div_round
  mul_wad p mul decimals = do r ← div_round (p * mul) (10 ^ decimals) floor; from_limbs r

  unfoldable pub calc_price_inner : ℕ → ℕ → RoundingMode → Outcome ℕ
  unfolding div_round
  calc_price_inner t0 t1 rm = do r ← div_round (t1 * one_e27) t0 rm; from_limbs r

  unfoldable pub calc_price : ℕ → ℕ → Outcome ℕ
  unfolding calc_price_inner
  calc_price t0 t1 = calc_price_inner t0 t1 ceiling

  unfoldable pub calc_price_generic : ℕ → ℕ → Bool → Outcome ℕ
  unfolding calc_price_inner
  calc_price_generic t0 t1 round_up = calc_price_inner t0 t1 (mode round_up)

  unfoldable pub mul_quantity : ℕ → ℕ → Outcome ℕ
  unfolding div_round
  mul_quantity p q = do r ← div_round (p * q) one_e27 floor; from_limbs r

  unfoldable pub quantity : ℕ → ℕ → Bool → Outcome ℕ
  unfolding div_round
  quantity p q round_up = do
    r ← div_round (p * q) one_e27 (mode round_up)
    returns (saturating_u128 r)

  unfoldable pub inverse_quantity : ℕ → ℕ → Bool → Outcome ℕ
  unfolding div_round
  inverse_quantity p q round_up = do
    r ← div_round (q * one_e27) p (mode round_up)
    returns (saturating_u128 r)

  -- `mod_op` by zero panics.
  unfoldable pub inverse_remainder : ℕ → ℕ → Outcome ℕ
  inverse_remainder zero q = panics
  inverse_remainder (suc p) q = returns (saturating_u128 ((q * one_e27) % suc p))
