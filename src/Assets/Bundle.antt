-- ===== src/Assets/Bundle.antt =====
-- The entry of a token in the array that the contract is given.
use appsec_seq.Base.{
  ℕ, ◌+◌, ◌-◌, ◌≤◌, ◌<◌, ◌≡◌, refl, true, List, [], ◌∷◌, ◌++◌, none, some, arith, u128_mod,
  add_u128_exact, All, append_assoc,
}
use appsec_seq.Base.Maps.{nat_eq, IsMap}
use appsec_seq.Assets.{BorrowStateTracker, new}
use appsec_seq.Assets.Ledger.{
  Call, call, allocates, owes, rewards, takes, recieves, saves, calls, amount, total, comes_in,
  goes_out, owed, taken, saved, IsBelow, calls-IsBelow, books_balance,
}
use appsec_seq.Assets.Chain.{is_external, and_then-calls}
use appsec_seq.Assets.Stage.{
  StageTracker, get_asset, both, combine, collected, get_asset-and_then, get_asset-collect_extra,
}
use appsec_seq.Assets.Stage
use appsec_seq.Assets.Array.{Asset}
use appsec_seq.Assets.Builder.{AssetBuilder, combined, filled_in}

calls-append :
    (t : BorrowStateTracker) (xs ys : List Call) → calls t (xs ++ ys) ≡ calls (calls t xs) ys
unfolding calls
calls-append t [] ys = refl
calls-append t (x ∷ xs) ys = calls-append (call t x) xs ys

total-append : (f : Call → ℕ) (xs ys : List Call) → total f (xs ++ ys) ≡ total f xs + total f ys
unfolding total
total-append f [] ys = omega arith
total-append f (x ∷ xs) ys = omega (arith, total-append f xs ys)

share : (c : Call) → comes_in c + saved c ≤ amount c
share (allocates q) = omega arith
share (owes q) = omega arith
share (rewards q) = omega arith
share (takes q) = omega arith
share (recieves q) = omega arith
share (saves q) = omega arith

shares : (cs : List Call) → total comes_in cs + total saved cs ≤ total amount cs
unfolding total
shares [] = omega arith
shares (c ∷ cs) = omega (arith, share c, shares cs)

-- The books of a token over the stages, where the swaps on Uniswap come first.
combined_books :
    (b : AssetBuilder) (a m : ℕ) (t : BorrowStateTracker) (xs ys : List Call)
    → IsMap b.rewards.map
    → IsMap b.top_of_block_orders.map
    → IsMap b.user_orders.map
    → get_asset b.swaps a ≡ some t
    → get_asset b.rewards a ≡ none
    → get_asset b.top_of_block_orders a ≡ some (calls new xs)
    → get_asset b.user_orders a ≡ some (calls new ys)
    → All (λ c. is_external c ≡ true) xs
    → All (λ c. is_external c ≡ true) ys
    → m + total amount xs + total amount ys < u128_mod
    → IsBelow t m
    → get_asset (combined b) a ≡ some (collected (calls t (xs ++ ys)))
unfolding combined
combined_books b a m t xs ys dr dx dy s r x y ex ey h w =
    let one = and_then-calls t xs m (omega (arith, h)) w ex in
    let below = calls-IsBelow t xs m (omega (arith, h)) w in
    let two = and_then-calls (calls t xs) ys (m + total amount xs) (omega (arith, h)) below ey in
    let first = Stage.and_then b.swaps b.rewards in
    let second = Stage.and_then first b.top_of_block_orders in
    ground (
      arith,
      get_asset-and_then b.swaps b.rewards a dr,
      get_asset-and_then first b.top_of_block_orders a dx,
      get_asset-and_then second b.user_orders a dy,
      get_asset-collect_extra (Stage.and_then second b.user_orders) a,
      calls-append t xs ys,
    )

collected-balanced :
    (cs : List Call)
    → total amount cs < u128_mod
    → total goes_out cs ≤ total comes_in cs
    → let t = collected (calls new cs) in
      (t.save + total goes_out cs ≡ total saved cs + total comes_in cs)
      × (t.take + total owed cs ≡ t.settle + total taken cs)
unfolding collected
collected-balanced cs h c =
    let t = calls new cs in
    let b = books_balance cs h in
    let exact : t.save + (t.contract_liquid - t.settle) < u128_mod =
      omega (arith, b.0, b.2, shares cs) in
    let kept = add_u128_exact t.save (t.contract_liquid - t.settle) exact in
    (omega (arith, b.0, b.2, kept), b.1)

-- A token with swaps on Uniswap first and then only users' orders and gas fees, whose amounts together
-- fit in a u128, and for which at least as much comes in as goes out: its entry saves the fees and all
-- that is left over, and Uniswap gives what it takes back but for the swaps.
pub filled_in-balanced :
    (b : AssetBuilder) (asset : Asset) (ws xs ys : List Call)
    → IsMap b.rewards.map
    → IsMap b.top_of_block_orders.map
    → IsMap b.user_orders.map
    → get_asset b.swaps asset.addr ≡ some (calls new ws)
    → get_asset b.rewards asset.addr ≡ none
    → get_asset b.top_of_block_orders asset.addr ≡ some (calls new xs)
    → get_asset b.user_orders asset.addr ≡ some (calls new ys)
    → All (λ c. is_external c ≡ true) xs
    → All (λ c. is_external c ≡ true) ys
    → total amount (ws ++ xs ++ ys) < u128_mod
    → total goes_out (ws ++ xs ++ ys) ≤ total comes_in (ws ++ xs ++ ys)
    → let e = filled_in (combined b) asset in
      let all = ws ++ xs ++ ys in
      (e.save + total goes_out all ≡ total saved all + total comes_in all)
      × (e.take + total owed all ≡ e.settle + total taken all)
      × (e.addr ≡ asset.addr)
unfolding filled_in collected new
filled_in-balanced b asset ws xs ys dr dx dy s r x y ex ey h c =
    let all = ws ++ xs ++ ys in
    let same : calls (calls new ws) (xs ++ ys) ≡ calls new all =
      ground (arith, calls-append new ws (xs ++ ys), append_assoc ws xs ys) in
    let sums : total amount all ≡ total amount ws + total amount xs + total amount ys =
      omega (arith, total-append amount (ws ++ xs) ys, total-append amount ws xs) in
    let w : IsBelow (calls new ws) (total amount ws) = ground (arith, calls-IsBelow new ws 0) in
    let books =
      combined_books b asset.addr (total amount ws) (calls new ws) xs ys dr dx dy s r x y ex ey
        (omega (arith, h, sums)) w in
    ground (arith, books, same, collected-balanced all h c)
