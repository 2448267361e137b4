-- ===== src/OrderPool/Composable.antt =====
-- angstrom-main/crates/order-pool/src/limit/composable.rs: the limit orders that carry a hook.
use appsec_seq.Base.{
  ℕ, List, Option, none, some, Result, ok, err, Outcome, returns, panics, if◌then◌else◌, is_none,
}
use appsec_seq.Base.Maps.{Map, nat_eq, get, insert, map_values, from_keys}
use appsec_seq.Orders.{AllOrders}
use appsec_seq.OrderPool.Pending
use appsec_seq.OrderPool.Pending.{PendingPool}
use appsec_seq.OrderPool.Standard.{Order, LimitPoolError, no_pool}

pub record ComposableLimitPool : Type 0 where
  pub map : Map ℕ (PendingPool AllOrders)

unfoldable pub new : List ℕ → ComposableLimitPool
new ids = record { map = from_keys ids Pending.new }

unfoldable pub get_order : ComposableLimitPool → ℕ → ℕ → Option Order
get_order s pool id = elim (get pool s.map) [ none ↦ none | some p ↦ Pending.get_order p id ]

unfoldable pub add_order :
    ComposableLimitPool → Order → ComposableLimitPool × Result (Unit {0}) LimitPoolError
add_order s o = elim (get o.pool_id s.map) [
  | none ↦ (s, err (no_pool o.pool_id))
  | some p ↦ (record s { map = insert o.pool_id (Pending.add_order p o) s.map }, ok tt)
]

unfoldable pub remove_order : ComposableLimitPool → ℕ → ℕ → ComposableLimitPool × Option Order
remove_order s pool id = elim (get pool s.map) [
  | none ↦ (s, none)
  | some p ↦ (
    record s { map = insert pool (Pending.remove_order p id).0 s.map },
    (Pending.remove_order p id).1,
  )
]

unfoldable pub new_pool : ComposableLimitPool → ℕ → Outcome ComposableLimitPool
new_pool s pool =
    if is_none (get pool s.map)
    then returns (record s { map = insert pool Pending.new s.map })
    else panics

unfoldable pub remove_invalid_order : ComposableLimitPool → ℕ → ComposableLimitPool
remove_invalid_order s h = record s { map = map_values (λ p. (Pending.remove_order p h).0) s.map }
