-- ===== src/OrderPool/Storage.antt =====
-- angstrom-main/crates/order-pool/src/order_storage.rs: all verified orders. Each pool stands behind
-- a mutex; the calls here are made one after the other.
pub mod Steps
pub mod Status
pub mod Budget
pub mod Moves
use appsec_seq.Base.{
  ℕ, Bool, true, false, ◌&&◌, List, [], ◌∷◌, ◌++◌, Option, none, some, Result, ok, err, Outcome,
  returns, panics, ◌>>=◌, if◌then◌else◌,
}
use appsec_seq.Base.Maps.{Map, nat_eq, contains_key, change}
use appsec_seq.Orders.{
  AllOrders, tob, OrderId, OrderLocation, limit, searcher, OrderStatus, filled, pending,
  OrderWithStorageData, TopOfBlockOrder, is_vanilla, map_inner,
}
use appsec_seq.OrderPool.Standard.{Order, LimitPoolError}
use appsec_seq.OrderPool.Limit
use appsec_seq.OrderPool.Limit.{LimitOrderPool}
use appsec_seq.OrderPool.Searcher
use appsec_seq.OrderPool.Searcher.{SearcherPool, TobOrder, SearcherPoolError}
use appsec_seq.OrderPool.Finalization
use appsec_seq.OrderPool.Finalization.{FinalizationPool}

pub record OrderStorage : Type 0 where
  pub limit_orders : LimitOrderPool
  pub searcher_orders : SearcherPool
  pub pending_finalization_orders : FinalizationPool
  -- an instant for each hash
  pub filled_orders : Map ℕ ℕ

-- The parts of `PoolConfig` that are read here, and the sizes in memory of the two types of orders.
pub record PoolConfig : Type 0 where
  pub ids : List ℕ
  pub lo_pending_max_size : ℕ
  pub s_pending_max_size : ℕ

pub record OrderSizes : Type 0 where
  pub all_orders : ℕ
  pub top_of_block_order : ℕ

unfoldable pub new : PoolConfig → OrderStorage
new config = record {
  limit_orders = Limit.new config.ids (some config.lo_pending_max_size);
  searcher_orders = Searcher.new config.ids (some config.s_pending_max_size);
  pending_finalization_orders = Finalization.new;
  filled_orders = [];
}

unfoldable pub remove_pool : OrderStorage → ℕ → OrderStorage
remove_pool s key = record s {
  searcher_orders = Searcher.remove_pool s.searcher_orders key;
  limit_orders = Limit.remove_pool s.limit_orders key;
}

unfoldable pub fetch_status_of_order : OrderStorage → ℕ → Outcome (Option OrderStatus)
fetch_status_of_order s h =
    if contains_key h s.filled_orders && Finalization.has_order s.pending_finalization_orders h
    then returns (some filled)
    else if Searcher.has_order s.searcher_orders h
    then returns (some pending)
    else Limit.get_order_status s.limit_orders h

unfoldable pub get_orders_by_pool : OrderStorage → ℕ → OrderLocation → List AllOrders
get_orders_by_pool s pool limit = Limit.get_all_orders_from_pool s.limit_orders pool
get_orders_by_pool s pool searcher = Searcher.get_all_orders_from_pool s.searcher_orders pool

abbrev pub as_all : Option TobOrder → Option Order
as_all none = none
as_all (some o) = some (map_inner tob o)

unfoldable pub remove_limit_order : OrderStorage → OrderId → OrderStorage × Option Order
remove_limit_order s id =
    let (l, o) = Limit.remove_order s.limit_orders id in (record s { limit_orders = l }, o)

unfoldable pub remove_searcher_order : OrderStorage → OrderId → OrderStorage × Option Order
remove_searcher_order s id =
    let (p, o) = Searcher.remove_order s.searcher_orders id in
    (record s { searcher_orders = p }, as_all o)

unfoldable pub remove_at : OrderLocation → OrderStorage → OrderId → OrderStorage × Option Order
remove_at limit s id = remove_limit_order s id
remove_at searcher s id = remove_searcher_order s id

unfoldable pub remove_order : OrderStorage → OrderId → OrderStorage × Option Order
unfolding remove_at
remove_order s id = remove_at id.location s id

-- It differs from `remove_order` in the metrics.
unfoldable pub remove_order_from_id : OrderStorage → OrderId → OrderStorage × Option Order
unfolding remove_at
remove_order_from_id s id = remove_at id.location s id

unfoldable pub get_at : OrderLocation → OrderStorage → OrderId → Option Order
get_at limit s id = Limit.get_order s.limit_orders id
get_at searcher s id = as_all (Searcher.get_order s.searcher_orders id.pool_id id.hash)

unfoldable pub get_order_from_id : OrderStorage → OrderId → Option Order
unfolding get_at
get_order_from_id s id = get_at id.location s id

unfoldable pub cancel_order : OrderStorage → OrderId → OrderStorage × Option Order
unfolding remove_at
cancel_order s id =
    if Finalization.has_order s.pending_finalization_orders id.hash
    then (s, none)
    else remove_at id.location s id

unfoldable pub park_at : OrderLocation → LimitOrderPool → OrderId → Outcome LimitOrderPool
park_at limit l id = Limit.park_order l id
park_at searcher l id = returns l

unfoldable pub park_each : LimitOrderPool → List OrderId → Outcome LimitOrderPool
unfolding park_at
park_each l [] = returns l
park_each l (id ∷ ids) = do l' ← park_at id.location l id; park_each l' ids

unfoldable pub park_orders : OrderStorage → List OrderId → Outcome OrderStorage
unfolding park_each
park_orders s ids = do l ← park_each s.limit_orders ids; returns (record s { limit_orders = l })

-- `unwrap_or_else(|| panic!(..))` for each pool id.
unfoldable pub orders_of : SearcherPool → List ℕ → Outcome (List TobOrder)
orders_of p [] = returns []
orders_of p (pool ∷ pools) = elim (Searcher.get_orders_for_pool p pool) [
  | none ↦ panics
  | some os ↦ (do rest ← orders_of p pools; returns (os ++ rest))
]

unfoldable pub top_tob_orders : OrderStorage → Outcome (List TobOrder)
unfolding orders_of
top_tob_orders s = orders_of s.searcher_orders (Searcher.get_all_pool_ids s.searcher_orders)

unfoldable pub add_new_limit_order :
    OrderSizes → OrderStorage → Order → OrderStorage × Result (Unit {0}) LimitPoolError
add_new_limit_order z s o =
    let (l, r) =
      if is_vanilla o.order
      then Limit.add_vanilla_order z.all_orders s.limit_orders o
      else Limit.add_composable_order z.all_orders s.limit_orders o in
    (record s { limit_orders = l }, r)

unfoldable pub add_new_searcher_order :
    OrderSizes → OrderStorage → TobOrder → OrderStorage × Result (Unit {0}) SearcherPoolError
add_new_searcher_order z s o =
    let (p, r) = Searcher.add_searcher_order z.top_of_block_order s.searcher_orders o in
    (record s { searcher_orders = p }, r)

unfoldable pub add_filled_orders : OrderStorage → ℕ → List Order → Outcome OrderStorage
add_filled_orders s block orders = do
  f ← Finalization.new_orders s.pending_finalization_orders block orders
  returns (record s { pending_finalization_orders = f })

unfoldable pub finalized_block : OrderStorage → ℕ → OrderStorage
finalized_block s block = record s {
  pending_finalization_orders = (Finalization.finalized s.pending_finalization_orders block).0;
}

unfoldable pub reorg : OrderStorage → List ℕ → OrderStorage × List Order
reorg s hs =
    let (f, orders) = Finalization.reorg s.pending_finalization_orders hs in
    (record s { pending_finalization_orders = f }, orders)

unfoldable pub remove_parked_order : OrderStorage → OrderId → OrderStorage × Option Order
remove_parked_order s id =
    let (l, o) = Limit.remove_parked_order s.limit_orders id in (record s { limit_orders = l }, o)

pub record OrderSet : Type 0 where
  pub limit : List Order
  pub searcher : List TobOrder

unfoldable pub get_all_orders : OrderStorage → Outcome OrderSet
get_all_orders s = do
  tobs ← top_tob_orders s
  returns (record { limit = Limit.get_all_orders s.limit_orders; searcher = tobs })

unfoldable pub new_pool : OrderStorage → ℕ → Outcome OrderStorage
new_pool s pool = do
  l ← Limit.new_pool s.limit_orders pool
  p ← Searcher.new_pool s.searcher_orders pool
  returns (record s { limit_orders = l; searcher_orders = p })

unfoldable pub remove_invalid_order : OrderStorage → ℕ → OrderStorage
remove_invalid_order s h = record s {
  searcher_orders = Searcher.remove_invalid_order s.searcher_orders h;
  limit_orders = Limit.remove_invalid_order s.limit_orders h;
}
