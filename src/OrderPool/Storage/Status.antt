-- ===== src/OrderPool/Storage/Status.antt =====
-- The status that the storage reports for an order.
use appsec_seq.Base.{
  ℕ, ◌≡◌, ◌≢◌, refl, ◌∙◌, List, [], ◌∷◌, some, returns, Option-cases, inl, inr, arith,
}
use appsec_seq.Base.Maps.{nat_eq, get, contains_key, values}
use appsec_seq.Orders.{filled, AllOrders, try_from_err, OrderId}
use appsec_seq.OrderPool.Pending.{PendingPool}
use appsec_seq.OrderPool.Standard
use appsec_seq.OrderPool.Standard.{
  LimitPool, ParkedPool, Order, pending_status, parked_status, blocked_status,
}
use appsec_seq.OrderPool.Limit
use appsec_seq.OrderPool.Storage.{
  OrderStorage, PoolConfig, OrderSizes, fetch_status_of_order, new, remove_pool, remove_limit_order,
  remove_searcher_order, cancel_order, remove_order, remove_order_from_id, park_orders,
  add_new_limit_order, add_new_searcher_order, add_filled_orders, finalized_block, reorg,
  remove_parked_order, new_pool, remove_invalid_order,
}
use appsec_seq.OrderPool.Storage.Steps.{Step, Reach, here, next}
use appsec_seq.OrderPool.Storage.Steps

remove_at-filled_orders :
    (s : OrderStorage) (id : OrderId) → (remove_order s id).0.filled_orders ≡ s.filled_orders
unfolding remove_order remove_limit_order remove_searcher_order
remove_at-filled_orders s id = ground arith

Step-filled_orders :
    {z : OrderSizes} {s t : OrderStorage} → Step z s t → t.filled_orders ≡ s.filled_orders
unfolding remove_pool remove_limit_order remove_searcher_order cancel_order remove_order
    remove_order_from_id park_orders add_new_limit_order add_new_searcher_order add_filled_orders
    finalized_block reorg remove_parked_order new_pool remove_invalid_order
Step-filled_orders (Steps.removes_pool key e) = ground arith
Step-filled_orders (Steps.removes_limit id e) = ground arith
Step-filled_orders (Steps.removes_searcher id e) = ground arith
Step-filled_orders (Steps.removes id e) = ground arith
Step-filled_orders (Steps.removes_from_id id e) = ground arith
Step-filled_orders (Steps.removes_parked id e) = ground arith
Step-filled_orders (Steps.cancels id e) = ground arith
Step-filled_orders (Steps.parks ids e) = ground arith
Step-filled_orders (Steps.adds_limit o e) = ground arith
Step-filled_orders (Steps.adds_searcher o e) = ground arith
Step-filled_orders (Steps.adds_filled block os e) = ground arith
Step-filled_orders (Steps.finalizes block e) = ground arith
Step-filled_orders (Steps.reorgs hs e) = ground arith
Step-filled_orders (Steps.adds_pool pool e) = ground arith
Step-filled_orders (Steps.invalidates h e) = ground arith

Reach-filled_orders :
    {z : OrderSizes} {s t : OrderStorage} → Reach z s t → t.filled_orders ≡ s.filled_orders
Reach-filled_orders here = refl
Reach-filled_orders (next r st) = Step-filled_orders st ∙ Reach-filled_orders r

blocked_status-ne-filled : (o : Order) → blocked_status o ≢ returns (some filled)
unfolding blocked_status try_from_err
blocked_status-ne-filled o = ground arith

parked_status-ne-filled :
    (h : ℕ) (ps : List ParkedPool) → parked_status h ps ≢ returns (some filled)
unfolding parked_status
parked_status-ne-filled h [] = λ e. cc
parked_status-ne-filled h (p ∷ ps) = elim (Option-cases (Standard.get_parked p h)) [
  | inl e ↦ rw (e, parked_status) (parked_status-ne-filled h ps)
  | inr (o, e) ↦ rw (e, parked_status) (blocked_status-ne-filled o)
]

pending_status-ne-filled :
    (h : ℕ) (ps : List (PendingPool AllOrders)) → pending_status h ps ≢ some filled
unfolding pending_status
pending_status-ne-filled h [] = λ e. cc
pending_status-ne-filled h (p ∷ ps) = ground (arith, pending_status-ne-filled h ps)

get_order_status-ne-filled :
    (s : LimitPool) (h : ℕ) → Standard.get_order_status s h ≢ returns (some filled)
unfolding Standard.get_order_status
get_order_status-ne-filled s h = ground (
  arith,
  pending_status-ne-filled h (values s.pending_orders),
  parked_status-ne-filled h (values s.parked_orders),
)

-- In no state that the storage can reach from its start is an order reported as filled.
pub fetch_status-ne-filled :
    (z : OrderSizes) (config : PoolConfig) (s : OrderStorage) (h : ℕ)
    → Reach z (new config) s
    → fetch_status_of_order s h ≢ returns (some filled)
unfolding fetch_status_of_order contains_key get new Limit.get_order_status
fetch_status-ne-filled z config s h r =
    ground (arith, Reach-filled_orders r, get_order_status-ne-filled s.limit_orders.limit_orders h)
