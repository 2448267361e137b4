-- ===== src/OrderPool/Standard/Parking.antt =====
-- Parking an order that another order of its account invalidates.
use appsec_seq.Base.{
  ℕ, ◌≡◌, refl, ap, subst, ◌∙◌, ◌&&◌, none, some, returns, panics, ok, ◌==◌, if◌then◌else◌, arith,
}
use appsec_seq.Base.Maps.{nat_eq, get, insert}
use appsec_seq.Orders.{OrderId, order_hash}
use appsec_seq.OrderPool.Standard.{
  LimitPool, ParkedPool, Order, get_pending_order, get_parked_order, add_order, remove_order,
  remove_pending_order, new_order, park_order, parked_by_other,
}
use appsec_seq.OrderPool.Standard.Lookup.{
  get_pending-remove_pending, get_parked-remove_pending, remove_pending_order_lem, IsSound,
  add_order_parked,
}
use appsec_seq.OrderPool.Standard.Sound.{add_unfunded-IsSound, remove_pending_order-IsSound}

-- The order as it is parked.
abbrev pub park : Order → Order
park o = record o { is_currently_valid = some parked_by_other }

pub remove_order_of_pending :
    (s : LimitPool) (pool h : ℕ) (o : Order)
    → (remove_pending_order s pool h).1 ≡ some o
    → remove_order s pool h ≡ ((remove_pending_order s pool h).0, some o)
unfolding remove_order
remove_order_of_pending s pool h o e = ground arith

pub parked_orders-remove_pending :
    (s : LimitPool) (pool h : ℕ) → (remove_pending_order s pool h).0.parked_orders ≡ s.parked_orders
unfolding remove_pending_order
parked_orders-remove_pending s pool h = ground arith

park_order_step :
    (s u t : LimitPool) (id : OrderId) (o : Order)
    → remove_order s id.pool_id id.hash ≡ (u, some o)
    → add_order u (park o) ≡ (t, ok tt)
    → park_order s id ≡ returns t
unfolding park_order
park_order_step s u t id o e f = ground arith

pub park_order_panics :
    (s u : LimitPool) (id : OrderId) (o : Order)
    → remove_order s id.pool_id id.hash ≡ (u, some o)
    → get o.pool_id u.parked_orders ≡ none
    → park_order s id ≡ panics
unfolding park_order add_order
park_order_panics s u id o e f = ground arith

add_order-park :
    (s : LimitPool) (o : Order) (q : ParkedPool)
    → get o.pool_id s.parked_orders ≡ some q
    → add_order s (park o) ≡ (
      record s { parked_orders = insert o.pool_id (new_order q (park o)) s.parked_orders },
      ok tt,
    )
unfolding add_order
add_order-park s o q h = ground arith

-- In a limit pool where each pending order has its entry in the book and no hash is both pending and
-- parked, parking a pending order, whose pool is known to the parked orders, returns and keeps that so;
-- the order is pending no more and reads back as parked with the error of its parking, and every other
-- order, pending or parked, stays as it was.
pub park_order_moves :
    (s : LimitPool) (id : OrderId) (o : Order) (q : ParkedPool)
    → IsSound s
    → get_pending_order s id.pool_id id.hash ≡ some o
    → o.pool_id ≡ id.pool_id
    → order_hash o.order ≡ id.hash
    → get id.pool_id s.parked_orders ≡ some q
    → (t : LimitPool) × (park_order s id ≡ returns t)
      × IsSound t
      × ((pool h : ℕ)
          → (get_pending_order t pool h
              ≡ (if id.pool_id == pool && id.hash == h then none else get_pending_order s pool h))
            × (get_parked_order t pool h ≡ (
                if id.pool_id == pool && id.hash == h
                then some (park o)
                else get_parked_order s pool h)))
park_order_moves s id o q v h hp hh hq = (
  t,
  park_order_step s u t id o
      (remove_order_of_pending s id.pool_id id.hash o
        (remove_pending_order_lem s id.pool_id id.hash v.indexed ∙ h))
      (add_order-park u o q known),
  subst IsSound (ap (λ r. r.0) (add_order-park u o q known)) (
      add_unfunded-IsSound u (park o) q (remove_pending_order-IsSound s id.pool_id id.hash v) refl
        known gone),
  λ pool k. ground (
    arith,
    add_order-park u o q known,
    add_order_parked u (park o) q pool k refl known,
    get_pending-remove_pending s id.pool_id id.hash pool k,
    get_parked-remove_pending s id.pool_id id.hash pool k,
  ),
)
  where
    u : LimitPool
    u = (remove_pending_order s id.pool_id id.hash).0

    known : get o.pool_id u.parked_orders ≡ some q
    known = rw (hp, parked_orders-remove_pending s id.pool_id id.hash) hq

    gone : get_pending_order u o.pool_id (order_hash o.order) ≡ none
    gone = ground (
      arith,
      hp,
      hh,
      get_pending-remove_pending s id.pool_id id.hash o.pool_id (order_hash o.order),
    )

    t : LimitPool
    t = record u { parked_orders = insert o.pool_id (new_order q (park o)) u.parked_orders }
