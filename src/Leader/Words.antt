-- ===== src/Leader/Words.antt =====
-- i64 as compiled for release, over the integers. The one quotient that does not fit, of the least value
-- by -1, on which the source panics, is 2^63 here.
use appsec_seq.Base.{ℕ, suc, ◌+◌, ◌-◌, ◌/◌, ◌%◌, ◌^◌, ◌≤◌, ◌<◌, ◌≡◌, arith}
use appsec_seq.Base.Int.{ℤ, pos, negsuc, pos_part, neg_part, sub_ℕ, ◌+ℤ◌, ◌-ℤ◌, ◌*ℤ◌}

-- The value in [-2^63, 2^63) that is the same modulo 2^64.
unfoldable pub wrap_i64 : ℤ → ℤ
wrap_i64 a = sub_ℕ ((pos_part a + 2 ^ 63 + (2 ^ 64 - neg_part a % 2 ^ 64)) % 2 ^ 64) (2 ^ 63)

-- A value that an i64 holds.
abbrev pub InI64 : ℤ → Type 0
InI64 a = (neg_part a ≤ 2 ^ 63) × (pos_part a < 2 ^ 63)

pub wrap_i64-eq : (a : ℤ) → InI64 a → wrap_i64 a ≡ a
unfolding wrap_i64
wrap_i64-eq (pos n) h = ground arith
wrap_i64-eq (negsuc n) h = ground arith

-- `n as i64` for an unsigned n
unfoldable pub to_i64 : ℕ → ℤ
to_i64 n = wrap_i64 (pos n)

unfoldable pub add_i64 : ℤ → ℤ → ℤ
add_i64 a b = wrap_i64 (a +ℤ b)

unfoldable pub sub_i64 : ℤ → ℤ → ℤ
sub_i64 a b = wrap_i64 (a -ℤ b)

unfoldable pub mul_i64 : ℤ → ℤ → ℤ
mul_i64 a b = wrap_i64 (a *ℤ b)

abbrev pub neg : ℕ → ℤ
neg n = sub_ℕ 0 n

-- Division rounds towards zero.
unfoldable pub quot : ℤ → ℤ → ℤ
quot (pos a) (pos b) = pos (a / b)
quot (pos a) (negsuc b) = neg (a / suc b)
quot (negsuc a) (pos b) = neg (suc a / b)
quot (negsuc a) (negsuc b) = pos (suc a / suc b)
