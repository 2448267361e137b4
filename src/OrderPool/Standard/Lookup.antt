-- ===== src/OrderPool/Standard/Lookup.antt =====
-- What the limit pool returns for an order after each operation.
use appsec_seq.Base.{
  ℕ, ◌≡◌, refl, true, false, ◌&&◌, Option, none, some, ok, ◌==◌, ◌⊎◌, inl, inr, if◌then◌else◌,
  Option-cases, arith,
}
use appsec_seq.Base.Maps.{nat_eq, get, remove, get-insert, get-remove, get-map_values}
use appsec_seq.Orders.{AllOrders, order_hash, currently_valid}
use appsec_seq.OrderPool.Pending
use appsec_seq.OrderPool.Pending.{PendingPool}
use appsec_seq.OrderPool.Pending.Lookup.{
  get_order-add_order, get_order-remove_order as pending_get-remove,
}
use appsec_seq.OrderPool.Pending.Index.{IsIndexed, remove_order-eq-get_order}
use appsec_seq.OrderPool.Standard.{
  LimitPool, ParkedPool, Order, get_order, get_pending_order, get_parked_order, add_order,
  remove_order, remove_parked_order, remove_pending_order, remove_invalid_order, new_order,
}

-- An order that is valid now is stored as pending: it reads back under its pool and hash, every other
-- pending order reads as before, and no parked order changes.
pub add_order_pending :
    (s : LimitPool) (o : Order) (p : PendingPool AllOrders) (pool id : ℕ)
    → currently_valid o ≡ true
    → get o.pool_id s.pending_orders ≡ some p
    → ((add_order s o).1 ≡ ok tt)
      × (get_pending_order (add_order s o).0 pool id ≡ (
          if o.pool_id == pool && o.order_id.hash == id
          then some o
          else get_pending_order s pool id))
      × (get_parked_order (add_order s o).0 pool id ≡ get_parked_order s pool id)
unfolding add_order get_pending_order get_parked_order
add_order_pending s o p pool id v h = ground (
  arith,
  get-insert pool o.pool_id (Pending.add_order p o) s.pending_orders,
  get_order-add_order p o id,
)

-- An order that is not valid now is parked under the digest of its body, and no pending order changes.
pub add_order_parked :
    (s : LimitPool) (o : Order) (p : ParkedPool) (pool id : ℕ)
    → currently_valid o ≡ false
    → get o.pool_id s.parked_orders ≡ some p
    → ((add_order s o).1 ≡ ok tt)
      × (get_parked_order (add_order s o).0 pool id ≡ (
          if o.pool_id == pool && order_hash o.order == id
          then some o
          else get_parked_order s pool id))
      × (get_pending_order (add_order s o).0 pool id ≡ get_pending_order s pool id)
unfolding add_order get_pending_order get_parked_order
add_order_parked s o p pool id v h = ground (
  arith,
  get-insert pool o.pool_id (new_order p o) s.parked_orders,
  get-insert id (order_hash o.order) o p,
)

-- The pools in which each pending order has its entry in the book and none is parked as well.
pub record IsSound (s : LimitPool) : Type 0 where
  pub indexed :
      (pool : ℕ) (p : PendingPool AllOrders) → get pool s.pending_orders ≡ some p → IsIndexed p
  pub exclusive :
      (pool id : ℕ) → (get_pending_order s pool id ≡ none) ⊎ (get_parked_order s pool id ≡ none)

pub remove_pending_order_lem :
    (s : LimitPool) (pool id : ℕ)
    → ((q : ℕ) (p : PendingPool AllOrders) → get q s.pending_orders ≡ some p → IsIndexed p)
    → ((remove_pending_order s pool id).1 ≡ get_pending_order s pool id)
unfolding remove_pending_order get_pending_order
remove_pending_order_lem s pool id v = elim (Option-cases (get pool s.pending_orders)) [
  | inl e ↦ ground arith
  | inr (p, e) ↦ ground (arith, remove_order-eq-get_order p id (v pool p e))
]

-- What the first half of `remove_order` leaves to read.
pub get_pending-remove_pending :
    (s : LimitPool) (pool id q j : ℕ)
    → get_pending_order (remove_pending_order s pool id).0 q j
      ≡ (if pool == q && id == j then none else get_pending_order s q j)
unfolding remove_pending_order get_pending_order
get_pending-remove_pending s pool id q j = elim (Option-cases (get pool s.pending_orders)) [
  | inl e ↦ ground arith
  | inr (p, e) ↦ ground (
    arith,
    get-insert q pool (Pending.remove_order p id).0 s.pending_orders,
    pending_get-remove p id j,
  )
]

pub get_parked-remove_pending :
    (s : LimitPool) (pool id q j : ℕ)
    → get_parked_order (remove_pending_order s pool id).0 q j ≡ get_parked_order s q j
unfolding remove_pending_order get_parked_order
get_parked-remove_pending s pool id q j = ground arith

pub get_parked-remove_parked :
    (s : LimitPool) (pool id q j : ℕ)
    → get_parked_order (remove_parked_order s pool id).0 q j
      ≡ (if pool == q && id == j then none else get_parked_order s q j)
unfolding remove_parked_order get_parked_order
get_parked-remove_parked s pool id q j = elim (Option-cases (get pool s.parked_orders)) [
  | inl e ↦ ground arith
  | inr (p, e) ↦ ground (arith, get-insert q pool (remove id p) s.parked_orders, get-remove j id p)
]

pub get_pending-remove_parked :
    (s : LimitPool) (pool id q j : ℕ)
    → get_pending_order (remove_parked_order s pool id).0 q j ≡ get_pending_order s q j
unfolding remove_parked_order get_pending_order
get_pending-remove_parked s pool id q j = ground arith

remove_parked_order_lem :
    (s : LimitPool) (pool id : ℕ) → (remove_parked_order s pool id).1 ≡ get_parked_order s pool id
unfolding remove_parked_order get_parked_order
remove_parked_order_lem s pool id = ground arith

-- In a limit pool where each pending order has its entry in the book and no hash is both pending and
-- parked, `remove_order` returns the order that `get_order` shows under that pool and hash, the order
-- is gone, and every other order stays.
pub get_order-remove_order :
    (s : LimitPool) (pool id q j : ℕ)
    → IsSound s
    → ((remove_order s pool id).1 ≡ get_order s pool id)
      × (get_order (remove_order s pool id).0 q j
          ≡ (if pool == q && id == j then none else get_order s q j))
unfolding get_order remove_order get_pending_order
get_order-remove_order s pool id q j v = elim (Option-cases (remove_pending_order s pool id).1) [
  | inl e ↦
      rw (e, remove_order)
        (ground (
          arith,
          remove_pending_order_lem s pool id v.indexed,
          remove_parked_order_lem t pool id,
          get_parked-remove_pending s pool id pool id,
          get_parked-remove_pending s pool id q j,
          get_pending-remove_pending s pool id q j,
          get_pending-remove_parked t pool id q j,
          get_parked-remove_parked t pool id q j,
        ))
  | inr (o, e) ↦
      rw (e, remove_order)
        (ground (
          arith,
          remove_pending_order_lem s pool id v.indexed,
          get_parked-remove_pending s pool id q j,
          get_pending-remove_pending s pool id q j,
          v.exclusive pool id,
        ))
]
  where
    t : LimitPool
    t = (remove_pending_order s pool id).0

-- A hash found invalid is gone from every pool of limit orders, pending or parked, and every other
-- order stays where it was.
pub get_order-remove_invalid_order :
    (s : LimitPool) (h pool id : ℕ)
    → (get_pending_order (remove_invalid_order s h) pool id
        ≡ (if h == id then none else get_pending_order s pool id))
      × (get_parked_order (remove_invalid_order s h) pool id
          ≡ (if h == id then none else get_parked_order s pool id))
unfolding remove_invalid_order get_pending_order get_parked_order
get_order-remove_invalid_order s h pool id =
    (pending_part (get pool s.pending_orders) refl, parked_part (get pool s.parked_orders) refl)
  where
    pending_part :
        (p : Option (PendingPool AllOrders))
        → get pool s.pending_orders ≡ p
        → get_pending_order (remove_invalid_order s h) pool id
          ≡ (if h == id then none else get_pending_order s pool id)
    pending_part none e =
        ground (arith, get-map_values (λ p. (Pending.remove_order p h).0) pool s.pending_orders)
    pending_part (some p) e = ground (
      arith,
      get-map_values (λ p. (Pending.remove_order p h).0) pool s.pending_orders,
      pending_get-remove p h id,
    )

    parked_part :
        (p : Option ParkedPool)
        → get pool s.parked_orders ≡ p
        → get_parked_order (remove_invalid_order s h) pool id
          ≡ (if h == id then none else get_parked_order s pool id)
    parked_part none e = ground (arith, get-map_values (λ p. remove h p) pool s.parked_orders)
    parked_part (some p) e =
        ground (arith, get-map_values (λ p. remove h p) pool s.parked_orders, get-remove id h p)
