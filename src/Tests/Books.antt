-- ===== src/Tests/Books.antt =====
-- Runs of the pending pool.
use appsec_seq.Base.{◌≡◌, refl, [], ◌∷◌, none, some, arith}
use appsec_seq.Base.Maps.{get, nat_eq}
use appsec_seq.Orders.{AllOrders}
use appsec_seq.Orders.Priority.{priority_eq, same_key_iff}
use appsec_seq.OrderPool.Pending.{PendingPool, get_order, remove_order}
use appsec_seq.OrderPool.Pending.Index.{IsIndexed, side, remove_order_clash}
use appsec_seq.Tests.Data.{bid, one_bid, priced}

pub one_bid-IsIndexed : IsIndexed one_bid
unfolding get_order get side
one_bid-IsIndexed id o h = ground (arith, same_key_iff (priced 30) o.priority_data)

-- The bids 5 and 6 have one price.
abbrev clash : PendingPool AllOrders
clash = record {
  orders = (5, bid 5 30) ∷ (6, bid 6 30) ∷ [];
  bids = (priced 30, 6) ∷ [];
  asks = [];
}

clash_5 : get_order clash 5 ≡ some (bid 5 30)
unfolding get_order get
clash_5 = refl

clash_6 : get_order clash 6 ≡ some (bid 6 30)
unfolding get_order get
clash_6 = refl

remove_order_clash_example :
    let q = (remove_order clash 5).0 in
    (get_order q 6 ≡ some (bid 6 30))
    × ((remove_order q 6).1 ≡ none)
    × (get_order (remove_order q 6).0 6 ≡ none)
remove_order_clash_example =
    remove_order_clash clash 5 6 (bid 5 30) (bid 6 30) (omega arith) clash_5 clash_6 refl refl
