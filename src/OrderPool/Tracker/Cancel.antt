-- ===== src/OrderPool/Tracker/Cancel.antt =====
-- What a cancellation leaves behind.
use appsec_seq.Base.{ℕ, ◌+◌, ◌*◌, ◌≡◌, true, none, some, ◌==◌, inl, inr, Option-cases, arith}
use appsec_seq.Base.Maps.{
  nat_eq, get, remove, get-insert_self, get-remove_self, get-remove, contains_key,
}
use appsec_seq.Orders.{OrderId, order_hash, from, deadline, is_tob}
use appsec_seq.OrderPool.Standard.{Order}
use appsec_seq.OrderPool.Storage
use appsec_seq.OrderPool.Storage.{OrderStorage}
use appsec_seq.OrderPool.Tracker.{
  OrderTracker, InnerCancelOrderRequest, cancel_order, is_cancelled, is_valid_cancel, or_now,
  max_new_order_delay_propagation, eth_block_time,
}

abbrev request : ℕ → ℕ → InnerCancelOrderRequest
request addr until = record { from = addr; deadline = until }

abbrev delay : ℕ
delay = max_new_order_delay_propagation * eth_block_time

-- Whatever the tracker and the storage know of the order, a cancellation of its hash leaves the hash
-- unknown and marked as cancelled.
pub cancel_order_marks :
    (now : ℕ) (t : OrderTracker) (addr h : ℕ) (s : OrderStorage)
    → let u = (cancel_order now t addr h s).0 in
      (get h u.order_hash_to_order_id ≡ none) × (is_cancelled u h ≡ true)
unfolding cancel_order is_cancelled contains_key
cancel_order_marks now t addr h s = elim (Option-cases (get h t.order_hash_to_order_id)) [
  | inl e ↦ ground (arith, get-insert_self h (request addr (now + delay)) t.cancelled_orders)
  | inr (id, e) ↦ elim (Option-cases (Storage.cancel_order s id).1) [
    | inl f ↦ ground (
      arith,
      get-insert_self h (request addr (now + delay)) t.cancelled_orders,
      get-remove_self h t.order_hash_to_order_id,
    )
    | inr (o, f) ↦ ground (
      arith,
      get-insert_self h (request (from o.order) (or_now now (deadline o.order))) t.cancelled_orders,
      get-remove_self h t.order_hash_to_order_id,
      get-remove h (order_hash o.order) (remove h t.order_hash_to_order_id),
    )
  ]
]

-- A cancellation of an order that the storage gives out reports its kind and its pool, forgets the
-- peers that sent it, and bars its owner, and nobody else, from sending the hash again.
pub cancel_order_owner :
    (now : ℕ) (t : OrderTracker) (addr h who : ℕ) (s s' : OrderStorage) (id : OrderId) (o : Order)
    → get h t.order_hash_to_order_id ≡ some id
    → Storage.cancel_order s id ≡ (s', some o)
    → let r = cancel_order now t addr h s in
      (r.1 ≡ s')
      × (r.2 ≡ some (is_tob o.order, o.pool_id))
      × (get (order_hash o.order) r.0.order_hash_to_peer_id ≡ none)
      × (is_valid_cancel r.0 h who ≡ (from o.order == who))
unfolding cancel_order is_valid_cancel
cancel_order_owner now t addr h who s s' id o e f = ground (
  arith,
  get-insert_self h (request (from o.order) (or_now now (deadline o.order))) t.cancelled_orders,
  get-remove_self (order_hash o.order) t.order_hash_to_peer_id,
)

-- A cancellation of a hash that is not known changes neither the storage nor what is known of any
-- order, and bars the address that asked for it, and nobody else, from sending the hash.
pub cancel_order_unknown :
    (now : ℕ) (t : OrderTracker) (addr h who : ℕ) (s : OrderStorage)
    → get h t.order_hash_to_order_id ≡ none
    → let r = cancel_order now t addr h s in
      (r.1 ≡ s)
      × (r.2 ≡ none)
      × (r.0.order_hash_to_order_id ≡ t.order_hash_to_order_id)
      × (is_valid_cancel r.0 h who ≡ (addr == who))
unfolding cancel_order is_valid_cancel
cancel_order_unknown now t addr h who s e =
    ground (arith, get-insert_self h (request addr (now + delay)) t.cancelled_orders)
