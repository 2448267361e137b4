-- ===== src/OrderPool/Standard.antt =====
-- angstrom-main/crates/order-pool/src/limit/standard.rs and parked.rs: the limit orders of each
-- pool, those that can be matched and those that are parked until their account has the funds.
pub mod Lookup
pub mod Parking
pub mod Pools
pub mod Sound
use Prim.Native.String.{String}
use appsec_seq.Base.{
  ℕ, Bool, true, false, ◌||◌, List, [], ◌∷◌, ◌++◌, Option, none, some, Result, ok, err, Outcome,
  returns, panics, ◌>>=◌, if◌then◌else◌, is_none, or_else,
}
use appsec_seq.Base.Maps.{Map, nat_eq, get, insert, remove, values, map_values, from_keys}
use appsec_seq.Orders.{
  AllOrders, OrderId, OrderStatus, OrderWithStorageData, UserAccountVerificationError, order_hash,
  currently_valid, try_from_err, pending, unknown,
}
use appsec_seq.OrderPool.Pending
use appsec_seq.OrderPool.Pending.{PendingPool}

pub data LimitPoolError : Type 0 where
  max_size : LimitPoolError
  no_pool : ℕ → LimitPoolError

abbrev pub Order : Type 0
Order = OrderWithStorageData AllOrders

abbrev pub ParkedPool : Type 0
ParkedPool = Map ℕ Order

unfoldable pub new_parked : ParkedPool
new_parked = []

unfoldable pub get_parked : ParkedPool → ℕ → Option Order
get_parked p id = get id p

unfoldable pub remove_parked : ParkedPool → ℕ → ParkedPool × Option Order
remove_parked p id = (remove id p, get id p)

unfoldable pub new_order : ParkedPool → Order → ParkedPool
unfolding order_hash
new_order p o = insert (order_hash o.order) o p

pub record LimitPool : Type 0 where
  pub pending_orders : Map ℕ (PendingPool AllOrders)
  pub parked_orders : Map ℕ ParkedPool

unfoldable pub new : List ℕ → LimitPool
new ids = record {
  pending_orders = from_keys ids Pending.new;
  parked_orders = from_keys ids new_parked;
}

-- `values().find_map(..)` over the pending pools.
unfoldable pub pending_status : ℕ → List (PendingPool AllOrders) → Option OrderStatus
pending_status h [] = none
pending_status h (p ∷ ps) = elim (Pending.get_order p h) [
  | some o ↦ some pending
  | none ↦ pending_status h ps
]

-- The status of a parked order. It has an error, and one that `try_from_err` reads, or the call
-- panics.
unfoldable pub blocked_status : Order → Outcome (Option OrderStatus)
blocked_status o = elim o.is_currently_valid [
  | none ↦ panics
  | some e ↦ elim (try_from_err e) [ ok s ↦ returns (some s) | err e' ↦ panics ]
]

unfoldable pub parked_status : ℕ → List ParkedPool → Outcome (Option OrderStatus)
unfolding blocked_status
parked_status h [] = returns none
parked_status h (p ∷ ps) = elim (get_parked p h) [
  | some o ↦ blocked_status o
  | none ↦ parked_status h ps
]

unfoldable pub get_order_status : LimitPool → ℕ → Outcome (Option OrderStatus)
get_order_status s h = elim (pending_status h (values s.pending_orders)) [
  | some st ↦ returns (some st)
  | none ↦ parked_status h (values s.parked_orders)
]

unfoldable pub get_pending_order : LimitPool → ℕ → ℕ → Option Order
get_pending_order s pool id = elim (get pool s.pending_orders) [
  | none ↦ none
  | some p ↦ Pending.get_order p id
]

unfoldable pub get_parked_order : LimitPool → ℕ → ℕ → Option Order
unfolding get_parked
get_parked_order s pool id = elim (get pool s.parked_orders) [
  | none ↦ none
  | some p ↦ get_parked p id
]

unfoldable pub get_order : LimitPool → ℕ → ℕ → Option Order
get_order s pool id = or_else (get_pending_order s pool id) (get_parked_order s pool id)

unfoldable pub add_pending : LimitPool → Order → LimitPool × Result (Unit {0}) LimitPoolError
add_pending s o = elim (get o.pool_id s.pending_orders) [
  | none ↦ (s, err (no_pool o.pool_id))
  | some p ↦ (
    record s { pending_orders = insert o.pool_id (Pending.add_order p o) s.pending_orders },
    ok tt,
  )
]

unfoldable pub add_parked : LimitPool → Order → LimitPool × Result (Unit {0}) LimitPoolError
unfolding new_order
add_parked s o = elim (get o.pool_id s.parked_orders) [
  | none ↦ (s, err (no_pool o.pool_id))
  | some p ↦ (record s { parked_orders = insert o.pool_id (new_order p o) s.parked_orders }, ok tt)
]

unfoldable pub add_order : LimitPool → Order → LimitPool × Result (Unit {0}) LimitPoolError
unfolding add_pending add_parked
add_order s o = if currently_valid o then add_pending s o else add_parked s o

unfoldable pub remove_parked_order : LimitPool → ℕ → ℕ → LimitPool × Option Order
unfolding remove_parked
remove_parked_order s pool id = elim (get pool s.parked_orders) [
  | none ↦ (s, none)
  | some p ↦ (
    record s { parked_orders = insert pool (remove_parked p id).0 s.parked_orders },
    (remove_parked p id).1,
  )
]

unfoldable pub remove_pending_order : LimitPool → ℕ → ℕ → LimitPool × Option Order
remove_pending_order s pool id = elim (get pool s.pending_orders) [
  | none ↦ (s, none)
  | some p ↦ (
    record s { pending_orders = insert pool (Pending.remove_order p id).0 s.pending_orders },
    (Pending.remove_order p id).1,
  )
]

unfoldable pub remove_order : LimitPool → ℕ → ℕ → LimitPool × Option Order
unfolding remove_pending_order
remove_order s pool id = elim (remove_pending_order s pool id).1 [
  | some o ↦ ((remove_pending_order s pool id).0, some o)
  | none ↦ remove_parked_order (remove_pending_order s pool id).0 pool id
]

unfoldable pub all_orders : List (PendingPool AllOrders) → List Order
all_orders [] = []
all_orders (p ∷ ps) = Pending.get_all_orders p ++ all_orders ps

unfoldable pub get_all_orders : LimitPool → List Order
unfolding all_orders
get_all_orders s = all_orders (values s.pending_orders)

abbrev pub parked_by_other : UserAccountVerificationError
parked_by_other = unknown "parked by other transaction"

-- `add_order(order).unwrap()`
unfoldable pub unwrap_add : LimitPool × Result (Unit {0}) LimitPoolError → Outcome LimitPool
unwrap_add (s, ok u) = returns s
unwrap_add (s, err e) = panics

unfoldable pub park_order : LimitPool → OrderId → Outcome LimitPool
unfolding unwrap_add
park_order s id = elim (remove_order s id.pool_id id.hash).1 [
  | none ↦ returns (remove_order s id.pool_id id.hash).0
  | some o ↦ unwrap_add (
      add_order (remove_order s id.pool_id id.hash).0
        (record o { is_currently_valid = some parked_by_other }))
]

-- `||` does not look at its right side, with the insertion that stands there, if the left one holds.
unfoldable pub new_pool : LimitPool → ℕ → Outcome LimitPool
new_pool s pool =
    if is_none (get pool s.pending_orders)
    then returns (record s { pending_orders = insert pool Pending.new s.pending_orders })
    else if is_none (get pool s.parked_orders)
    then returns (record s {
      pending_orders = insert pool Pending.new s.pending_orders;
      parked_orders = insert pool new_parked s.parked_orders;
    })
    else panics

unfoldable pub remove_invalid_order : LimitPool → ℕ → LimitPool
unfolding remove_parked
remove_invalid_order s h = record s {
  pending_orders = map_values (λ p. (Pending.remove_order p h).0) s.pending_orders;
  parked_orders = map_values (λ p. (remove_parked p h).0) s.parked_orders;
}
