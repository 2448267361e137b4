-- ===== src/OrderPool/Standard/Pools.antt =====
-- The pools that a limit pool knows.
use appsec_seq.Base.{
  ℕ, ◌≡◌, true, false, none, some, returns, panics, err, ◌⊎◌, inl, inr, Bool-cases, arith,
}
use appsec_seq.Base.Maps.{nat_eq, get, insert, get-insert_self}
use appsec_seq.Orders.{currently_valid}
use appsec_seq.OrderPool.Pending
use appsec_seq.OrderPool.Pending.{PendingPool}
use appsec_seq.OrderPool.Standard.{
  LimitPool, Order, no_pool, add_order, park_order, new_pool, remove_pending_order,
}
use appsec_seq.OrderPool.Standard.Parking.{
  park_order_panics, remove_order_of_pending, parked_orders-remove_pending,
}
use appsec_seq.OrderPool.Pending.Index.{remove_order-add_order}

-- The limit pool after a fresh pool is added.
abbrev pub with_pool : LimitPool → ℕ → LimitPool
with_pool s pool = record s { pending_orders = insert pool Pending.new s.pending_orders }

known : (s : LimitPool) (pool : ℕ) → get pool (with_pool s pool).pending_orders ≡ some Pending.new
known s pool = get-insert_self pool Pending.new s.pending_orders

added :
    (s : LimitPool) (o : Order)
    → currently_valid o ≡ true
    → (add_order (with_pool s o.pool_id) o).0 ≡ record s {
      pending_orders =
          insert o.pool_id (Pending.add_order Pending.new o) (with_pool s o.pool_id).pending_orders;
    }
unfolding add_order
added s o v = ground (arith, known s o.pool_id)

just_added :
    (s : LimitPool) (o : Order)
    → currently_valid o ≡ true
    → o.order_id.pool_id ≡ o.pool_id
    → (remove_pending_order
        (add_order (with_pool s o.pool_id) o).0
        o.order_id.pool_id
        o.order_id.hash).1
      ≡ some o
unfolding remove_pending_order
just_added s o v e =
    rw (added s o v, e)
      (ground (
        arith,
        get-insert_self o.pool_id (Pending.add_order Pending.new o)
            (with_pool s o.pool_id).pending_orders,
        remove_order-add_order Pending.new o,
      ))

parked :
    (s : LimitPool) (o : Order)
    → currently_valid o ≡ true
    → (add_order (with_pool s o.pool_id) o).0.parked_orders ≡ s.parked_orders
parked s o v = rw (added s o v)

park_order_fresh :
    (s : LimitPool) (o : Order)
    → currently_valid o ≡ true
    → get o.pool_id s.parked_orders ≡ none
    → o.order_id.pool_id ≡ o.pool_id
    → park_order (add_order (with_pool s o.pool_id) o).0 o.order_id ≡ panics
park_order_fresh s o v k e =
    park_order_panics t _ o.order_id o
      (remove_order_of_pending t o.order_id.pool_id o.order_id.hash o (just_added s o v e))
      (rw (parked_orders-remove_pending t o.order_id.pool_id o.order_id.hash) (rw (parked s o v) k))
  where
    t : LimitPool
    t = (add_order (with_pool s o.pool_id) o).0

-- A pool added after the start, under an id that is not known yet, has no room for parked orders: an
-- order for it that is not valid now is refused as if the pool were unknown, and to park an order that
-- was just added to it panics.
pub new_pool_cannot_park :
    (s : LimitPool) (o : Order)
    → get o.pool_id s.pending_orders ≡ none
    → get o.pool_id s.parked_orders ≡ none
    → o.order_id.pool_id ≡ o.pool_id
    → (new_pool s o.pool_id ≡ returns (with_pool s o.pool_id))
      × (currently_valid o ≡ false
            × (add_order (with_pool s o.pool_id) o
                ≡ (with_pool s o.pool_id, err (no_pool o.pool_id)))
          ⊎ currently_valid o ≡ true
            × (park_order (add_order (with_pool s o.pool_id) o).0 o.order_id ≡ panics))
unfolding new_pool add_order
new_pool_cannot_park s o h k e = (
  ground arith,
  elim (Bool-cases (currently_valid o)) [
    | inr no_funds ↦ inl (no_funds, ground arith)
    | inl funds ↦ inr (funds, park_order_fresh s o funds k e)
  ],
)
