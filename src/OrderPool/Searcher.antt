-- ===== src/OrderPool/Searcher.antt =====
-- angstrom-main/crates/order-pool/src/searcher/mod.rs: the top-of-block orders of each pool.
use appsec_seq.Base.{
  ℕ, Bool, true, false, List, [], ◌∷◌, ◌++◌, Option, none, some, Result, ok, err, Outcome, returns,
  panics, map, if◌then◌else◌, is_none, is_some,
}
use appsec_seq.Base.Maps.{Map, nat_eq, get, insert, remove, keys, values, map_values, from_keys}
use appsec_seq.Orders.{AllOrders, tob, TopOfBlockOrder, OrderId, OrderWithStorageData}
use appsec_seq.OrderPool.Size
use appsec_seq.OrderPool.Size.{SizeTracker}
use appsec_seq.OrderPool.Pending
use appsec_seq.OrderPool.Pending.{PendingPool}

pub data SearcherPoolError : Type 0 where
  max_size : SearcherPoolError
  no_pool : ℕ → SearcherPoolError

abbrev pub TobOrder : Type 0
TobOrder = OrderWithStorageData TopOfBlockOrder

pub record SearcherPool : Type 0 where
  pub searcher_orders : Map ℕ (PendingPool TopOfBlockOrder)
  pub size : SizeTracker

unfoldable pub new : List ℕ → Option ℕ → SearcherPool
new ids max = record {
  searcher_orders = from_keys ids Pending.new;
  size = record { max = max; current = 0 };
}

unfoldable pub get_all_orders_from_pool : SearcherPool → ℕ → List AllOrders
get_all_orders_from_pool s pool = elim (get pool s.searcher_orders) [
  | none ↦ []
  | some p ↦ map (λ o. tob o.order) (Pending.get_all_orders p)
]

-- `values().find_map(..)`
unfoldable pub any_holds : ℕ → List (PendingPool TopOfBlockOrder) → Bool
any_holds h [] = false
any_holds h (p ∷ ps) = elim (Pending.get_order p h) [ some o ↦ true | none ↦ any_holds h ps ]

unfoldable pub has_order : SearcherPool → ℕ → Bool
has_order s h = any_holds h (values s.searcher_orders)

unfoldable pub get_order : SearcherPool → ℕ → ℕ → Option TobOrder
get_order s pool id = elim (get pool s.searcher_orders) [
  | none ↦ none
  | some p ↦ Pending.get_order p id
]

unfoldable pub store_order :
    SearcherPool → TobOrder → SearcherPool × Result (Unit {0}) SearcherPoolError
store_order s o = elim (get o.pool_id s.searcher_orders) [
  | none ↦ (s, err (no_pool o.pool_id))
  | some p ↦ (
    record s { searcher_orders = insert o.pool_id (Pending.add_order p o) s.searcher_orders },
    ok tt,
  )
]

-- `size` is the size in memory of a `TopOfBlockOrder`.
unfoldable pub add_searcher_order :
    ℕ → SearcherPool → TobOrder → SearcherPool × Result (Unit {0}) SearcherPoolError
unfolding store_order
add_searcher_order size s o =
    let (t, fits) = Size.has_space s.size size in
    if fits then store_order (record s { size = t }) o else (record s { size = t }, err max_size)

unfoldable pub remove_order : SearcherPool → OrderId → SearcherPool × Option TobOrder
remove_order s id = elim (get id.pool_id s.searcher_orders) [
  | none ↦ (s, none)
  | some p ↦ (
    record s {
      searcher_orders = insert id.pool_id (Pending.remove_order p id.hash).0 s.searcher_orders;
    },
    (Pending.remove_order p id.hash).1,
  )
]

unfoldable pub get_all_pool_ids : SearcherPool → List ℕ
get_all_pool_ids s = keys s.searcher_orders

unfoldable pub get_orders_for_pool : SearcherPool → ℕ → Option (List TobOrder)
get_orders_for_pool s pool = elim (get pool s.searcher_orders) [
  | none ↦ none
  | some p ↦ some (Pending.get_all_orders p)
]

unfoldable pub all_orders : List (PendingPool TopOfBlockOrder) → List TobOrder
all_orders [] = []
all_orders (p ∷ ps) = Pending.get_all_orders p ++ all_orders ps

unfoldable pub get_all_orders : SearcherPool → List TobOrder
unfolding all_orders
get_all_orders s = all_orders (values s.searcher_orders)

unfoldable pub new_pool : SearcherPool → ℕ → Outcome SearcherPool
new_pool s pool =
    if is_none (get pool s.searcher_orders)
    then returns (record s { searcher_orders = insert pool Pending.new s.searcher_orders })
    else panics

unfoldable pub remove_pool : SearcherPool → ℕ → SearcherPool
remove_pool s pool = record s { searcher_orders = remove pool s.searcher_orders }

-- One unit of space is given back for each pool that returned an order.
unfoldable pub give_back : ℕ → List (PendingPool TopOfBlockOrder) → SizeTracker → SizeTracker
give_back h [] t = t
give_back h (p ∷ ps) t =
    give_back h ps (if is_some (Pending.remove_order p h).1 then Size.remove_order t 1 else t)

unfoldable pub remove_invalid_order : SearcherPool → ℕ → SearcherPool
unfolding give_back
remove_invalid_order s h = record s {
  searcher_orders = map_values (λ p. (Pending.remove_order p h).0) s.searcher_orders;
  size = give_back h (values s.searcher_orders) s.size;
}
