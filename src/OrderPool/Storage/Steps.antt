-- ===== src/OrderPool/Storage/Steps.antt =====
-- The storage as a state machine: any sequence of the calls that change it, on any arguments. A call
-- that panics poisons a mutex, and nothing follows it.
use appsec_seq.Base.{ℕ, ◌≡◌, List, returns}
use appsec_seq.Orders.{OrderId}
use appsec_seq.OrderPool.Standard.{Order}
use appsec_seq.OrderPool.Searcher.{TobOrder}
use appsec_seq.OrderPool.Storage.{
  OrderStorage, OrderSizes, remove_pool, remove_limit_order, remove_searcher_order, cancel_order,
  remove_order, remove_order_from_id, park_orders, add_new_limit_order, add_new_searcher_order,
  add_filled_orders, finalized_block, reorg, remove_parked_order, new_pool, remove_invalid_order,
}

pub data Step (z : OrderSizes) (s t : OrderStorage) : Type 0 where
  removes_pool : (key : ℕ) → t ≡ remove_pool s key → Step z s t
  removes_limit : (id : OrderId) → t ≡ (remove_limit_order s id).0 → Step z s t
  removes_searcher : (id : OrderId) → t ≡ (remove_searcher_order s id).0 → Step z s t
  removes : (id : OrderId) → t ≡ (remove_order s id).0 → Step z s t
  removes_from_id : (id : OrderId) → t ≡ (remove_order_from_id s id).0 → Step z s t
  removes_parked : (id : OrderId) → t ≡ (remove_parked_order s id).0 → Step z s t
  cancels : (id : OrderId) → t ≡ (cancel_order s id).0 → Step z s t
  parks : (ids : List OrderId) → park_orders s ids ≡ returns t → Step z s t
  adds_limit : (o : Order) → t ≡ (add_new_limit_order z s o).0 → Step z s t
  adds_searcher : (o : TobOrder) → t ≡ (add_new_searcher_order z s o).0 → Step z s t
  adds_filled :
      (block : ℕ) (os : List Order) → add_filled_orders s block os ≡ returns t → Step z s t
  finalizes : (block : ℕ) → t ≡ finalized_block s block → Step z s t
  reorgs : (hs : List ℕ) → t ≡ (reorg s hs).0 → Step z s t
  adds_pool : (pool : ℕ) → new_pool s pool ≡ returns t → Step z s t
  invalidates : (h : ℕ) → t ≡ remove_invalid_order s h → Step z s t

pub data Reach (z : OrderSizes) (s : OrderStorage) : OrderStorage → Type 0 where
  here : Reach z s s
  next : {t u : OrderStorage} → Reach z s t → Step z t u → Reach z s u
