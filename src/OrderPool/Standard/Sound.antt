-- ===== src/OrderPool/Standard/Sound.antt =====
-- The soundness of a limit pool, which its lookups rest on, over its operations.
use appsec_seq.Base.{
  ℕ, ◌≡◌, sym, ap, ◌∙◌, subst, true, false, none, some, ◌==◌, arith, Option-cases, Bool-cases, inl,
  inr,
}
use appsec_seq.Base.Maps.{nat_eq, get, insert, get-insert}
use appsec_seq.Orders.{AllOrders, currently_valid, order_hash}
use appsec_seq.Orders.Priority.{priority_eq}
use appsec_seq.OrderPool.Pending
use appsec_seq.OrderPool.Pending.{PendingPool}
use appsec_seq.OrderPool.Pending.Index.{
  IsIndexed, side, add_order-IsIndexed, remove_order-IsIndexed,
}
use appsec_seq.OrderPool.Standard.{
  Order, LimitPool, ParkedPool, get_pending_order, get_parked_order, add_order, remove_order,
  remove_pending_order, remove_parked_order,
}
use appsec_seq.OrderPool.Standard.Lookup.{
  IsSound, add_order_pending, add_order_parked, get_pending-remove_pending,
  get_parked-remove_pending, get_pending-remove_parked, get_parked-remove_parked,
}

pending-remove_parked :
    (s : LimitPool) (pool id : ℕ)
    → (remove_parked_order s pool id).0.pending_orders ≡ s.pending_orders
unfolding remove_parked_order
pending-remove_parked s pool id = ground arith

remove_pending-Indexed :
    (s : LimitPool) (pool id q : ℕ) (p : PendingPool AllOrders)
    → IsSound s
    → get q (remove_pending_order s pool id).0.pending_orders ≡ some p
    → IsIndexed p
unfolding remove_pending_order
remove_pending-Indexed s pool id q p v e = elim (Option-cases (get pool s.pending_orders)) [
  | inl none_there ↦ v.indexed q p (ground arith)
  | inr (r, there) ↦ elim (Bool-cases (pool == q)) [
    | inl same ↦
        let now : (Pending.remove_order r id).0 ≡ p =
          ground (arith, get-insert q pool (Pending.remove_order r id).0 s.pending_orders) in
        subst IsIndexed now (remove_order-IsIndexed r id (v.indexed pool r there))
    | inr other ↦
        v.indexed q p
          (ground (arith, get-insert q pool (Pending.remove_order r id).0 s.pending_orders))
  ]
]

pub remove_pending_order-IsSound :
    (s : LimitPool) (pool id : ℕ) → IsSound s → IsSound (remove_pending_order s pool id).0
remove_pending_order-IsSound s pool id v = record {
  indexed = λ q p e. remove_pending-Indexed s pool id q p v e;
  exclusive = λ q j. ground (
    arith,
    v.exclusive q j,
    get_pending-remove_pending s pool id q j,
    get_parked-remove_pending s pool id q j,
  );
}

add_order_stored :
    (s : LimitPool) (o : Order) (p : PendingPool AllOrders)
    → currently_valid o ≡ true
    → get o.pool_id s.pending_orders ≡ some p
    → (add_order s o).0.pending_orders ≡ insert o.pool_id (Pending.add_order p o) s.pending_orders
unfolding add_order
add_order_stored s o p t h = ground arith

add_order_kept :
    (s : LimitPool) (o : Order)
    → currently_valid o ≡ false
    → (add_order s o).0.pending_orders ≡ s.pending_orders
unfolding add_order
add_order_kept s o t = ground arith

added-Indexed :
    (s : LimitPool) (o : Order) (p r : PendingPool AllOrders) (pool : ℕ)
    → IsSound s
    → get o.pool_id s.pending_orders ≡ some p
    → ((h : ℕ) → get o.priority_data (side p o.is_bid) ≡ some h → h ≡ o.order_id.hash)
    → get pool (insert o.pool_id (Pending.add_order p o) s.pending_orders) ≡ some r
    → IsIndexed r
added-Indexed s o p r pool v hp free e = elim (Bool-cases (o.pool_id == pool)) [
  | inl same ↦
      let now : Pending.add_order p o ≡ r =
        ground (arith, get-insert pool o.pool_id (Pending.add_order p o) s.pending_orders) in
      subst IsIndexed now (add_order-IsIndexed p o (v.indexed o.pool_id p hp) free)
  | inr other ↦
      v.indexed pool r
        (ground (arith, get-insert pool o.pool_id (Pending.add_order p o) s.pending_orders))
]

-- An order that is not valid now only has to be absent from the pending ones.
pub add_unfunded-IsSound :
    (s : LimitPool) (o : Order) (q : ParkedPool)
    → IsSound s
    → currently_valid o ≡ false
    → get o.pool_id s.parked_orders ≡ some q
    → get_pending_order s o.pool_id (order_hash o.order) ≡ none
    → IsSound (add_order s o).0
add_unfunded-IsSound s o q v t hq no_pending = record {
  indexed = λ pool r e. v.indexed pool r (sym (ap (get pool) (add_order_kept s o t)) ∙ e);
  exclusive = λ pool j. ground (arith, v.exclusive pool j, add_order_parked s o q pool j t hq);
}

-- An order is added to a limit pool where each pending order has its entry in the book and no hash is
-- both pending and parked: that stays so if the other half of its pool does not hold its hash and no
-- order with another hash has its priority on its side of the book.
pub add_order-IsSound :
    (s : LimitPool) (o : Order) (p : PendingPool AllOrders) (q : ParkedPool)
    → IsSound s
    → get o.pool_id s.pending_orders ≡ some p
    → get o.pool_id s.parked_orders ≡ some q
    → get_parked_order s o.pool_id o.order_id.hash ≡ none
    → get_pending_order s o.pool_id (order_hash o.order) ≡ none
    → ((h : ℕ) → get o.priority_data (side p o.is_bid) ≡ some h → h ≡ o.order_id.hash)
    → IsSound (add_order s o).0
add_order-IsSound s o p q v hp hq no_parked no_pending free =
    elim (Bool-cases (currently_valid o)) [
      | inl t ↦ record {
        indexed = λ pool r e.
            added-Indexed s o p r pool v hp free
              (sym (ap (get pool) (add_order_stored s o p t hp)) ∙ e);
        exclusive =
            λ pool j. ground (arith, v.exclusive pool j, add_order_pending s o p pool j t hp);
      }
      | inr t ↦ add_unfunded-IsSound s o q v t hq no_pending
    ]

remove_parked_order-IsSound :
    (s : LimitPool) (pool id : ℕ) → IsSound s → IsSound (remove_parked_order s pool id).0
remove_parked_order-IsSound s pool id v = record {
  indexed = λ q p e. v.indexed q p (sym (ap (get q) (pending-remove_parked s pool id)) ∙ e);
  exclusive = λ q j. ground (
    arith,
    v.exclusive q j,
    get_pending-remove_parked s pool id q j,
    get_parked-remove_parked s pool id q j,
  );
}

-- Taking an order out of a limit pool, whether it is pending, parked or not there, keeps it so that
-- each pending order has its entry in the book and no hash is both pending and parked.
pub remove_order-IsSound :
    (s : LimitPool) (pool id : ℕ) → IsSound s → IsSound (remove_order s pool id).0
unfolding remove_order
remove_order-IsSound s pool id v = elim (Option-cases (remove_pending_order s pool id).1) [
  | inl e ↦
      rw (e, remove_order)
        (remove_parked_order-IsSound (remove_pending_order s pool id).0 pool id
          (remove_pending_order-IsSound s pool id v))
  | inr (o, e) ↦ rw (e, remove_order) (remove_pending_order-IsSound s pool id v)
]
