-- ===== src/OrderPool/Storage/Moves.antt =====
-- An order put into the storage and taken out again.
use appsec_seq.Base.{◌≡◌, true, some, ok, arith}
use appsec_seq.Base.Maps.{nat_eq, get, get-insert_self}
use appsec_seq.Orders.{
  limit, searcher, AllOrders, TopOfBlockOrder, tob, is_vanilla, currently_valid, map_inner,
}
use appsec_seq.OrderPool.Size.{has_space}
use appsec_seq.OrderPool.Pending
use appsec_seq.OrderPool.Pending.{PendingPool}
use appsec_seq.OrderPool.Pending.Index.{remove_order-add_order}
use appsec_seq.OrderPool.Pending.Lookup.{get_order-add_order}
use appsec_seq.OrderPool.Standard
use appsec_seq.OrderPool.Standard.{LimitPool, Order}
use appsec_seq.OrderPool.Limit
use appsec_seq.OrderPool.Searcher
use appsec_seq.OrderPool.Searcher.{SearcherPool, TobOrder}
use appsec_seq.OrderPool.Storage.{
  OrderStorage, OrderSizes, get_order_from_id, remove_order, remove_limit_order,
  remove_searcher_order, add_new_limit_order, add_new_searcher_order,
}

-- An order is in the storage: its id finds it, and its removal returns it.
abbrev pub Holds : OrderStorage → Order → Type 0
Holds s o = (get_order_from_id s o.order_id ≡ some o) × ((remove_order s o.order_id).1 ≡ some o)

pool_holds :
    (s : LimitPool) (o : Order) (p : PendingPool AllOrders)
    → currently_valid o ≡ true
    → o.order_id.pool_id ≡ o.pool_id
    → get o.pool_id s.pending_orders ≡ some p
    → ((Standard.add_order s o).1 ≡ ok tt)
      × (Standard.get_order (Standard.add_order s o).0 o.order_id.pool_id o.order_id.hash ≡ some o)
      × ((Standard.remove_order (Standard.add_order s o).0 o.order_id.pool_id o.order_id.hash).1
          ≡ some o)
unfolding Standard.add_order Standard.get_order Standard.get_pending_order Standard.remove_order
pool_holds s o p v e h = ground (
  arith,
  get-insert_self o.pool_id (Pending.add_order p o) s.pending_orders,
  remove_order-add_order p o,
  get_order-add_order p o o.order_id.hash,
)

-- A limit order without a hook that is valid now, for a pool that is known and while the budget has
-- room, is taken in; its id then finds it and its removal returns it.
pub add_new_limit_order-Holds :
    (z : OrderSizes) (s : OrderStorage) (o : Order) (p : PendingPool AllOrders)
    → is_vanilla o.order ≡ true
    → currently_valid o ≡ true
    → o.order_id.location ≡ limit
    → o.order_id.pool_id ≡ o.pool_id
    → get o.pool_id s.limit_orders.limit_orders.pending_orders ≡ some p
    → (has_space s.limit_orders.size z.all_orders).1 ≡ true
    → ((add_new_limit_order z s o).1 ≡ ok tt) × Holds (add_new_limit_order z s o).0 o
unfolding add_new_limit_order get_order_from_id remove_order remove_limit_order
    Limit.add_vanilla_order Limit.get_order Limit.remove_order
add_new_limit_order-Holds z s o p van v loc e h room =
    ground (arith, pool_holds s.limit_orders.limit_orders o p v e h)

-- A top-of-block order for a pool that is known and while the budget has room is taken in; its id then
-- finds it and its removal returns it, as an order of the common type.
pub add_new_searcher_order-Holds :
    (z : OrderSizes) (s : OrderStorage) (o : TobOrder) (p : PendingPool TopOfBlockOrder)
    → o.order_id.location ≡ searcher
    → o.order_id.pool_id ≡ o.pool_id
    → get o.pool_id s.searcher_orders.searcher_orders ≡ some p
    → (has_space s.searcher_orders.size z.top_of_block_order).1 ≡ true
    → ((add_new_searcher_order z s o).1 ≡ ok tt)
      × Holds (add_new_searcher_order z s o).0 (map_inner tob o)
unfolding add_new_searcher_order get_order_from_id remove_order remove_searcher_order
    Searcher.add_searcher_order Searcher.get_order Searcher.remove_order map_inner
add_new_searcher_order-Holds z s o p loc e h room = ground (
  arith,
  get-insert_self o.pool_id (Pending.add_order p o) s.searcher_orders.searcher_orders,
  remove_order-add_order p o,
  get_order-add_order p o o.order_id.hash,
)
