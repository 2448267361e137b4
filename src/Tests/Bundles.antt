-- ===== src/Tests/Bundles.antt =====
-- Runs of the books of a bundle.
use appsec_seq.Base.{◌+◌, ◌≡◌, ◌↔◌, ◌≤◌, ◌<◌, u128_mod, refl, List, [], ◌∷◌, ◌++◌, arith}
use appsec_seq.Base.Maps.{nat_eq, get}
use appsec_seq.Assets.{BorrowStateTracker, new, and_then, owe}
use appsec_seq.Assets.Ledger.{
  Call, allocates, takes, recieves, saves, calls, total, amount, comes_in, goes_out, owed, taken,
  saved, IsBelow, books_balance,
}
use appsec_seq.Assets.Chain.{and_then-calls, settle-and_then}
use appsec_seq.Assets.Stage.{get_asset}
use appsec_seq.Assets.Array
use appsec_seq.Assets.Array.{
  Asset, AssetArray, add_or_get_asset_idx, get_asset_addr, order_assets_properly,
}
use appsec_seq.Assets.Array.Places.{
  IsPlaced, IsSorted, has_addr, addr_at, order_assets_properly-IsPlaced,
}
use appsec_seq.Assets.Builder.{AssetBuilder, combined, filled_in}
use appsec_seq.Assets.Bundle.{filled_in-balanced}

-- 100 of the token 7 are taken for a swap, a user is given 30 and pays 20, and 5 are saved.
abbrev swapped : List Call
swapped = takes 100 ∷ []

abbrev sold : List Call
sold = allocates 30 ∷ saves 5 ∷ []

abbrev bought : List Call
bought = recieves 20 ∷ []

abbrev bundle : AssetBuilder
bundle = record {
  swaps = record { map = (7, calls new swapped) ∷ [] };
  rewards = record { map = [] };
  top_of_block_orders = record { map = (7, calls new sold) ∷ [] };
  user_orders = record { map = (7, calls new bought) ∷ [] };
  assets = Array.new;
}

abbrev token_7 : Asset
token_7 = record { addr = 7; save = 0; take = 0; settle = 0 }

fits : total amount (swapped ++ sold) < u128_mod
unfolding total
fits = ground arith

new-IsBelow : IsBelow new 0
unfolding new
new-IsBelow = ground arith

abbrev has_5 : BorrowStateTracker
has_5 = record { take = 0; contract_liquid = 5; settle = 0; save = 0 }

-- The tokens 9 and 7, in the order in which they came.
abbrev two_tokens : AssetArray
two_tokens = record {
  assets = record token_7 { addr = 9 } ∷ token_7 ∷ [];
  assets_idx = (9, 0) ∷ (7, 1) ∷ [];
}

two_tokens-IsPlaced : IsPlaced two_tokens
unfolding get addr_at
two_tokens-IsPlaced a i h = ground arith

books_balance_example :
    let t = calls new (swapped ++ sold) in
    (t.contract_liquid + total goes_out (swapped ++ sold)
      ≡ total comes_in (swapped ++ sold) + t.settle)
    × (t.take + total owed (swapped ++ sold) ≡ t.settle + total taken (swapped ++ sold))
    × (t.save ≡ total saved (swapped ++ sold))
    × ((t.settle ≤ t.contract_liquid)
        ↔ (total goes_out (swapped ++ sold) ≤ total comes_in (swapped ++ sold)))
books_balance_example = books_balance (swapped ++ sold) fits

fits_all : total amount (swapped ++ sold ++ bought) < u128_mod
unfolding total
fits_all = ground arith

covers : total goes_out (swapped ++ sold ++ bought) ≤ total comes_in (swapped ++ sold ++ bought)
unfolding total
covers = ground arith

filled_in-balanced_example :
    let e = filled_in (combined bundle) token_7 in
    (e.save + total goes_out (swapped ++ sold ++ bought)
      ≡ total saved (swapped ++ sold ++ bought) + total comes_in (swapped ++ sold ++ bought))
    × (e.take + total owed (swapped ++ sold ++ bought)
        ≡ e.settle + total taken (swapped ++ sold ++ bought))
    × (e.addr ≡ 7)
unfolding get_asset get
filled_in-balanced_example =
    filled_in-balanced bundle token_7 swapped sold bought tt (tt, tt) (tt, tt) refl refl refl refl
      (refl, (refl, tt)) (refl, tt) fits_all covers

fits_sold : 0 + total amount sold < u128_mod
unfolding total
fits_sold = ground arith

and_then-calls_example : and_then new (calls new sold) ≡ calls new sold
and_then-calls_example = and_then-calls new sold 0 fits_sold new-IsBelow (refl, (refl, tt))

settle-and_then_example :
    let r = and_then (and_then has_5 (owe new 5)) (owe new 4) in
    (r.settle ≡ 0) × (r.contract_liquid ≡ 5) × ((owe (owe has_5 5) 4).settle ≡ 0 + 5 + 4)
settle-and_then_example =
    settle-and_then has_5 5 5 4 (ground arith) (ground arith) (ground arith) (ground arith)

order_assets_properly-IsPlaced_example :
    let t = order_assets_properly two_tokens in
    IsPlaced t × IsSorted t.assets × (has_addr 9 t.assets ≡ has_addr 9 two_tokens.assets)
order_assets_properly-IsPlaced_example =
    order_assets_properly-IsPlaced two_tokens 9 two_tokens-IsPlaced
