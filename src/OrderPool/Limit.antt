-- ===== src/OrderPool/Limit.antt =====
-- angstrom-main/crates/order-pool/src/limit/mod.rs: both kinds of limit orders under one byte
-- budget.
use appsec_seq.Base.{
  ℕ, List, Option, none, some, Result, err, Outcome, returns, ◌>>=◌, if◌then◌else◌, or_else, map,
  [],
}
use appsec_seq.Base.Maps.{nat_eq, get, remove}
use appsec_seq.Orders.{AllOrders, OrderId, OrderStatus}
use appsec_seq.OrderPool.Size
use appsec_seq.OrderPool.Size.{SizeTracker}
use appsec_seq.OrderPool.Pending
use appsec_seq.OrderPool.Standard
use appsec_seq.OrderPool.Standard.{LimitPool, Order, LimitPoolError, max_size}
use appsec_seq.OrderPool.Composable
use appsec_seq.OrderPool.Composable.{ComposableLimitPool}

pub record LimitOrderPool : Type 0 where
  pub limit_orders : LimitPool
  pub composable_orders : ComposableLimitPool
  pub size : SizeTracker

unfoldable pub new : List ℕ → Option ℕ → LimitOrderPool
new ids max = record {
  limit_orders = Standard.new ids;
  composable_orders = Composable.new ids;
  size = record { max = max; current = 0 };
}

unfoldable pub get_order : LimitOrderPool → OrderId → Option Order
get_order s id =
    or_else (Standard.get_order s.limit_orders id.pool_id id.hash)
      (Composable.get_order s.composable_orders id.pool_id id.hash)

unfoldable pub remove_pool : LimitOrderPool → ℕ → LimitOrderPool
remove_pool s pool =
    let l = s.limit_orders in
    let c = s.composable_orders in
    record s {
      composable_orders = record c { map = remove pool c.map };
      limit_orders = record l {
        parked_orders = remove pool l.parked_orders;
        pending_orders = remove pool l.pending_orders;
      };
    }

unfoldable pub get_order_status : LimitOrderPool → ℕ → Outcome (Option OrderStatus)
get_order_status s h = Standard.get_order_status s.limit_orders h

-- `size` is `order.size()`, the size in memory of an `AllOrders`: one number for every order.
unfoldable pub add_composable_order :
    ℕ → LimitOrderPool → Order → LimitOrderPool × Result (Unit {0}) LimitPoolError
add_composable_order size s o =
    let (t, fits) = Size.has_space s.size size in
    let (c, r) = Composable.add_order s.composable_orders o in
    if fits
    then (record s { size = t; composable_orders = c }, r)
    else (record s { size = t }, err max_size)

unfoldable pub add_vanilla_order :
    ℕ → LimitOrderPool → Order → LimitOrderPool × Result (Unit {0}) LimitPoolError
add_vanilla_order size s o =
    let (t, fits) = Size.has_space s.size size in
    let (l, r) = Standard.add_order s.limit_orders o in
    if fits
    then (record s { size = t; limit_orders = l }, r)
    else (record s { size = t }, err max_size)

unfoldable pub remove_composable : LimitOrderPool → OrderId → LimitOrderPool × Option Order
remove_composable s id =
    let (c, o) = Composable.remove_order s.composable_orders id.pool_id id.hash in
    (record s { composable_orders = c }, o)

unfoldable pub remove_order : LimitOrderPool → OrderId → LimitOrderPool × Option Order
unfolding remove_composable
remove_order s id =
    let (l, o) = Standard.remove_order s.limit_orders id.pool_id id.hash in
    let s' = record s { limit_orders = l } in
    elim o [ some a ↦ (s', some a) | none ↦ remove_composable s' id ]

unfoldable pub remove_parked_order : LimitOrderPool → OrderId → LimitOrderPool × Option Order
unfolding remove_composable
remove_parked_order s id =
    let (l, o) = Standard.remove_parked_order s.limit_orders id.pool_id id.hash in
    let s' = record s { limit_orders = l } in
    elim o [ some a ↦ (s', some a) | none ↦ remove_composable s' id ]

unfoldable pub get_all_orders : LimitOrderPool → List Order
get_all_orders s = Standard.get_all_orders s.limit_orders

unfoldable pub get_all_orders_from_pool : LimitOrderPool → ℕ → List AllOrders
get_all_orders_from_pool s pool = elim (get pool s.limit_orders.pending_orders) [
  | none ↦ []
  | some p ↦ map (λ o. o.order) (Pending.get_all_orders p)
]

unfoldable pub park_order : LimitOrderPool → OrderId → Outcome LimitOrderPool
park_order s id = do
  l ← Standard.park_order s.limit_orders id
  returns (record s { limit_orders = l })

unfoldable pub new_pool : LimitOrderPool → ℕ → Outcome LimitOrderPool
new_pool s pool = do
  l ← Standard.new_pool s.limit_orders pool
  c ← Composable.new_pool s.composable_orders pool
  returns (record s { limit_orders = l; composable_orders = c })

unfoldable pub remove_invalid_order : LimitOrderPool → ℕ → LimitOrderPool
remove_invalid_order s h = record s {
  composable_orders = Composable.remove_invalid_order s.composable_orders h;
  limit_orders = Standard.remove_invalid_order s.limit_orders h;
}
