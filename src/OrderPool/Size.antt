-- ===== src/OrderPool/Size.antt =====
-- angstrom-main/crates/order-pool/src/common/size.rs: the byte budget of a pool.
use appsec_seq.Base.{
  ℕ, ◌+◌, ◌≤◌, ◌<◌, ◌≡◌, Bool, true, false, Option, none, some, leb, if◌then◌else◌, add_u64, ◌^◌,
  ◌⊎◌, sub_u64, arith,
}

pub record SizeTracker : Type 0 where
  pub max : Option ℕ
  pub current : ℕ

unfoldable pub new : Option ℕ → SizeTracker
new max = record { max = max; current = 0 }

-- The space is taken as soon as it is found.
unfoldable pub has_space : SizeTracker → ℕ → SizeTracker × Bool
has_space s size = elim s.max [
  | none ↦ (record s { current = add_u64 s.current size }, true)
  | some max ↦
      if leb (add_u64 s.current size) max
      then (record s { current = add_u64 s.current size }, true)
      else (s, false)
]

unfoldable pub remove_order : SizeTracker → ℕ → SizeTracker
remove_order s size = record s { current = sub_u64 s.current size }

-- The space in use is within the limit, and no sum of it with one more order wraps.
pub record IsWithin (max : ℕ) (s : SizeTracker) : Type 0 where
  pub limit : s.max ≡ some max
  pub used : s.current ≤ max

-- With a limit and a size below 2^63, an order is let in exactly when the limit has room for it, the
-- space in use grows by its size then and is unchanged otherwise, and it never passes the limit.
pub has_space_exact :
    (max size : ℕ) (s : SizeTracker)
    → max < 2 ^ 63
    → size < 2 ^ 63
    → IsWithin max s
    → IsWithin max (has_space s size).0
      × (((has_space s size).1 ≡ true)
            × (s.current + size ≤ max)
            × ((has_space s size).0.current ≡ s.current + size)
          ⊎ ((has_space s size).1 ≡ false)
            × (max < s.current + size)
            × ((has_space s size).0.current ≡ s.current))
unfolding has_space
has_space_exact max size s m z w = ground arith
