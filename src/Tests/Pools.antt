-- ===== src/Tests/Pools.antt =====
-- The pending, the limit and the finalization pools.
use appsec_seq.Base.{
  ℕ, ◌≡◌, subst, refl, ◌⊎◌, List, true, false, [], ◌∷◌, none, some, err, returns, panics, elem,
  if◌then◌else◌, ◌==◌, arith, ◌&&◌, Distinct,
}
use appsec_seq.Base.Maps.{get, nat_eq}
use appsec_seq.Orders.{currently_valid, order_hash}
use appsec_seq.Orders.Priority.{priority_eq}
use appsec_seq.OrderPool.Pending
use appsec_seq.OrderPool.Pending.{PendingPool}
use appsec_seq.OrderPool.Pending.Index.{IsIndexed, side}
use appsec_seq.OrderPool.Standard.{
  Order, LimitPool, get_parked, get_order, get_pending_order, get_parked_order, add_order,
  remove_order, park_order, new_pool, no_pool,
}
use appsec_seq.OrderPool.Standard.Lookup.{IsSound, get_order-remove_order}
use appsec_seq.Orders.Priority.{priority_eq, same_key_iff}
use appsec_seq.OrderPool.Standard.Sound.{add_order-IsSound, remove_order-IsSound}
use appsec_seq.OrderPool.Standard.Parking.{park, park_order_moves}
use appsec_seq.OrderPool.Standard.Pools.{with_pool, new_pool_cannot_park}
use appsec_seq.OrderPool.Finalization.{FinalizationPool, hashes, new_orders, finalized, has_order}
use appsec_seq.OrderPool.Finalization.Blocks.{with_block, finalized-new_orders}
use appsec_seq.Tests.Books.{one_bid-IsIndexed}
use appsec_seq.Tests.Data.{priced, bid, unfunded, one_bid, two_orders, id_of}

pending_1 : get 1 two_orders.pending_orders ≡ some one_bid
unfolding get
pending_1 = refl

parked_1 : get 1 two_orders.parked_orders ≡ some ((6, unfunded 6 40) ∷ [])
unfolding get
parked_1 = refl

two_orders-IsSound : IsSound two_orders
unfolding get get_pending_order get_parked_order get_parked Pending.get_order side
two_orders-IsSound = record {
  indexed =
      λ pool p h. let same : one_bid ≡ p = ground arith in subst IsIndexed same one_bid-IsIndexed;
  exclusive = λ pool id. ground arith;
}

get_order-remove_order_example :
    ((remove_order two_orders 1 5).1 ≡ get_order two_orders 1 5)
    × (get_order (remove_order two_orders 1 5).0 1 6
        ≡ (if 1 == 1 && 5 == 6 then none else get_order two_orders 1 6))
get_order-remove_order_example = get_order-remove_order two_orders 1 5 1 6 two_orders-IsSound

pending_5 : get_pending_order two_orders 1 5 ≡ some (bid 5 30)
unfolding get_pending_order get Pending.get_order
pending_5 = refl

hash_5 : order_hash (bid 5 30).order ≡ 5
unfolding order_hash
hash_5 = refl

no_parked_8 : get_parked_order two_orders 1 8 ≡ none
unfolding get_parked_order get get_parked
no_parked_8 = refl

no_pending_8 : get_pending_order two_orders 1 (order_hash (bid 8 31).order) ≡ none
unfolding get_pending_order get order_hash Pending.get_order
no_pending_8 = refl

free_price_8 : (h : ℕ) → get (priced 31) (side one_bid true) ≡ some h → h ≡ 8
unfolding get side
free_price_8 h e = ground (arith, same_key_iff (priced 30) (priced 31))

add_order-IsSound_example : IsSound (add_order two_orders (bid 8 31)).0
add_order-IsSound_example =
    add_order-IsSound two_orders (bid 8 31) one_bid ((6, unfunded 6 40) ∷ []) two_orders-IsSound
      pending_1 parked_1 no_parked_8 no_pending_8 free_price_8

remove_order-IsSound_example : IsSound (remove_order two_orders 1 6).0
remove_order-IsSound_example = remove_order-IsSound two_orders 1 6 two_orders-IsSound

park_order_moves_example :
    (t : LimitPool) × (park_order two_orders (id_of 5) ≡ returns t)
    × IsSound t
    × ((pool h : ℕ)
        → (get_pending_order t pool h ≡ (
            if (id_of 5).pool_id == pool && (id_of 5).hash == h
            then none
            else get_pending_order two_orders pool h))
          × (get_parked_order t pool h ≡ (
              if (id_of 5).pool_id == pool && (id_of 5).hash == h
              then some (park (bid 5 30))
              else get_parked_order two_orders pool h)))
park_order_moves_example =
    park_order_moves two_orders (id_of 5) (bid 5 30) ((6, unfunded 6 40) ∷ []) two_orders-IsSound
      pending_5 refl hash_5 parked_1

abbrev empty_limits : LimitPool
empty_limits = record { pending_orders = []; parked_orders = [] }

no_pending : get 1 empty_limits.pending_orders ≡ none
unfolding get
no_pending = refl

no_parked : get 1 empty_limits.parked_orders ≡ none
unfolding get
no_parked = refl

new_pool_cannot_park_example :
    (new_pool empty_limits (bid 5 30).pool_id ≡ returns (with_pool empty_limits (bid 5 30).pool_id))
    × (currently_valid (bid 5 30) ≡ false
          × (add_order (with_pool empty_limits (bid 5 30).pool_id) (bid 5 30)
              ≡ (with_pool empty_limits (bid 5 30).pool_id, err (no_pool (bid 5 30).pool_id)))
        ⊎ currently_valid (bid 5 30) ≡ true
          × (park_order
                (add_order (with_pool empty_limits (bid 5 30).pool_id) (bid 5 30)).0
                (bid 5 30).order_id
              ≡ panics))
new_pool_cannot_park_example =
    new_pool_cannot_park empty_limits (bid 5 30) no_pending no_parked refl

abbrev one_block : FinalizationPool
one_block = record { id_to_orders = (5, bid 5 30) ∷ []; block_to_ids = (1, 5 ∷ []) ∷ [] }

abbrev filled : List Order
filled = bid 6 31 ∷ bid 8 50 ∷ []

filled-Distinct : Distinct (hashes filled)
unfolding hashes order_hash
filled-Distinct = ground arith

block_2 : get 2 one_block.block_to_ids ≡ none
unfolding get
block_2 = refl

finalized-new_orders_example :
    let t = with_block one_block 2 filled in
    (new_orders one_block 2 filled ≡ returns t)
    × ((finalized t 2).1 ≡ filled)
    × (has_order (finalized t 2).0 5
        ≡ (if elem 5 (hashes filled) then false else has_order one_block 5))
    × (get 2 (finalized t 2).0.block_to_ids ≡ none)
finalized-new_orders_example = finalized-new_orders one_block 2 filled 5 filled-Distinct block_2
