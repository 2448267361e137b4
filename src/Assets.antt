-- ===== src/Assets.antt =====
-- angstrom-main/crates/types/src/contract_payloads/asset/state.rs: what the contract borrows from
-- Uniswap, token by token, over the stages of a bundle.
pub mod Ledger
pub mod Chain
pub mod Stage
pub mod Array
pub mod Builder
pub mod Bundle
use appsec_seq.Base.{ℕ, ◌-◌, Bool, List, [], ◌∷◌, Option, none, some, if◌then◌else◌, ltb, add_u128}
use appsec_seq.Base.Maps.{Map, nat_eq, get, insert}

pub record BorrowStateTracker : Type 0 where
  pub take : ℕ
  pub contract_liquid : ℕ
  pub settle : ℕ
  pub save : ℕ

unfoldable pub new : BorrowStateTracker
new = record { take = 0; contract_liquid = 0; settle = 0; save = 0 }

-- Uniswap's loan.
unfoldable pub loan : BorrowStateTracker → ℕ → BorrowStateTracker
loan t q = record t { take = add_u128 t.take q; settle = add_u128 t.settle q }

-- Subtraction on ℕ stops at 0, as `saturating_sub` does.
unfoldable pub allocate : BorrowStateTracker → ℕ → BorrowStateTracker
unfolding loan
allocate t q =
    let u = if ltb t.contract_liquid q then loan t (q - t.contract_liquid) else t in
    record u { contract_liquid = u.contract_liquid - q }

unfoldable pub owe : BorrowStateTracker → ℕ → BorrowStateTracker
owe t q = record t { settle = add_u128 t.settle q }

unfoldable pub reward : BorrowStateTracker → ℕ → BorrowStateTracker
reward t q = record t { take = add_u128 t.take q }

-- The method `take`.
unfoldable pub take_in : BorrowStateTracker → ℕ → BorrowStateTracker
take_in t q = record t { take = add_u128 t.take q; contract_liquid = add_u128 t.contract_liquid q }

unfoldable pub recieve : BorrowStateTracker → ℕ → BorrowStateTracker
recieve t q = record t { contract_liquid = add_u128 t.contract_liquid q }

unfoldable pub add_gas_fee : BorrowStateTracker → ℕ → BorrowStateTracker
add_gas_fee t q = record t { save = add_u128 t.save q }

unfoldable pub and_then : BorrowStateTracker → BorrowStateTracker → BorrowStateTracker
and_then t u = record {
  take = add_u128 t.take (u.take - t.contract_liquid);
  contract_liquid = add_u128 (t.contract_liquid - u.take) u.contract_liquid;
  settle = add_u128 t.settle (u.settle - t.contract_liquid);
  save = add_u128 t.save u.save;
}
