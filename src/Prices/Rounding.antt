-- ===== src/Prices/Rounding.antt =====
-- What the two roundings of a division give.
use appsec_seq.Base.{ℕ, suc, zero, ◌-◌, ◌*◌, ◌≤◌, ◌<◌, ◌≡◌, refl, arith, returns, u128_mod}
use native.Mathlib.Nat.{le_of_mul-le-mul_right}
use appsec_seq.Prices.{DivRound, RoundingMode, floor, ceiling, div_round, saturating_u128}

abbrev pub max_u128 : ℕ
max_u128 = u128_mod - 1

pub saturating-le : (n x : ℕ) → n ≤ x → saturating_u128 n ≤ x
saturating-le n x h = ground arith

pub le-saturating : (x n : ℕ) → x ≤ n → x ≤ max_u128 → x ≤ saturating_u128 n
le-saturating x n h b = ground arith

pub saturating_exact : (n : ℕ) → n ≤ max_u128 → saturating_u128 n ≡ n
saturating_exact n h = ground arith

module _ ⦃m : DivRound⦄ where
  pub floor-mul-le : (n d : ℕ) → m.quotient n (suc d) floor * suc d ≤ n
  floor-mul-le n d = (m.floor_iff (m.quotient n (suc d) floor) n d).0 (omega arith)

  pub le-ceiling-mul : (n d : ℕ) → n ≤ m.quotient n (suc d) ceiling * suc d
  le-ceiling-mul n d = (m.ceiling_iff (m.quotient n (suc d) ceiling) n d).0 (omega arith)

  -- Rounded down is at most rounded up, which is at most one more.
  pub floor-le-ceiling :
      (n d : ℕ)
      → (m.quotient n (suc d) floor ≤ m.quotient n (suc d) ceiling)
        × (m.quotient n (suc d) ceiling ≤ suc (m.quotient n (suc d) floor))
  floor-le-ceiling n d =
      let f = m.quotient n (suc d) floor in
      (
        le_of_mul-le-mul_right {k = suc d} (omega (arith, floor-mul-le n d, le-ceiling-mul n d))
            (omega arith),
        (m.ceiling_iff (suc f) n d).1 (grind (arith, (m.floor_iff (suc f) n d).1)),
      )

  -- A larger dividend has no smaller quotient.
  pub floor_mono : (n k d : ℕ) → n ≤ k → m.quotient n (suc d) floor ≤ m.quotient k (suc d) floor
  floor_mono n k d h =
      (m.floor_iff (m.quotient n (suc d) floor) k d).1 (omega (arith, h, floor-mul-le n d))

  -- The same at a divisor that is known to be positive.
  pub div_round_pos :
      (n d : ℕ) (rm : RoundingMode) → 0 < d → div_round n d rm ≡ returns (m.quotient n d rm)
  unfolding div_round
  div_round_pos n zero rm pos = absurd (omega (arith, pos))
  div_round_pos n (suc d) rm pos = refl

  pub le-ceiling_pos : (n d : ℕ) → 0 < d → n ≤ m.quotient n d ceiling * d
  le-ceiling_pos n zero pos = absurd (omega (arith, pos))
  le-ceiling_pos n (suc d) pos = le-ceiling-mul n d
